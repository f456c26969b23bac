-- ===== src/Telemetry/Delivery.antt =====
-- Which readings the worker hands on.
use qms_bakery.Prelude.{
  ℕ, zero, suc, ◌+◌, ◌-◌, ◌*◌, ◌≤◌, ◌≡◌, refl, sym, ap, ◌∙◌, inl, inr, Bool, true, false, not, ◌&&◌,
  ◌||◌, List, [], ◌∷◌, ◌++◌, map, all, elem, take, length, ◌==◌, if◌then◌else◌, arith, Bool-cases,
}
use qms_bakery.Telemetry.{
  Entry, Stream, ack, Handler, attempt, settle, dispatch_batch, after_delivery, dropped,
  consume_once, consume,
}

take-dropped : (n : ℕ) (es : List Entry) → take n es ++ dropped n es ≡ es
take-dropped zero es = refl
take-dropped (suc n) [] = refl
take-dropped (suc n) (e ∷ es) = ap (λ (l : List Entry). e ∷ l) (take-dropped n es)

length-dropped : (n : ℕ) (es : List Entry) → length (dropped n es) ≡ length es - n
length-dropped zero es = omega arith
length-dropped (suc n) [] = omega arith
length-dropped (suc n) (e ∷ es) = omega (arith, length-dropped n es)

no_length : (es : List Entry) → length es ≤ 0 → es ≡ []
no_length [] h = refl
no_length (e ∷ es) h = absurd (omega arith)

elem-append : (a : ℕ) (xs ys : List ℕ) → elem a (xs ++ ys) ≡ (elem a xs || elem a ys)
elem-append a [] ys = refl
elem-append a (x ∷ xs) ys = ground (arith, elem-append a xs ys)

elem-ack : (a b : ℕ) (xs : List ℕ) → (b == a) ≡ false → elem a (ack b xs) ≡ elem a xs
elem-ack a b [] other = refl
elem-ack a b (x ∷ xs) other = elim (Bool-cases (x == b)) [
  | inl same ↦ rw same (ground (arith, elem-ack a b xs other))
  | inr kept ↦ rw kept (ground (arith, elem-ack a b xs other))
]

all_head : (b rest : Bool) → (not b && rest) ≡ true → b ≡ false
all_head b rest h = ground arith

all_tail : (b rest : Bool) → (not b && rest) ≡ true → rest ≡ true
all_tail b rest h = ground arith

all-take : (n : ℕ) (p : Entry → Bool) (es : List Entry) → all p es ≡ true → all p (take n es) ≡ true
all-take zero p es h = refl
all-take (suc n) p [] h = refl
all-take (suc n) p (e ∷ es) h = ground (arith, all-take n p es)

all-dropped :
    (n : ℕ) (p : Entry → Bool) (es : List Entry) → all p es ≡ true → all p (dropped n es) ≡ true
all-dropped zero p es h = h
all-dropped (suc n) p [] h = refl
all-dropped (suc n) p (e ∷ es) h = ground (arith, all-dropped n p es)

add_if :
    (b : Bool) (x n m : ℕ) → x ≡ n + m → (if b then suc x else x) ≡ (if b then suc n else n) + m
add_if b x n m h = ground arith

one_batch : (l r b : ℕ) → l ≤ suc r * b → l - b ≤ r * b
one_batch l r b h = grind arith

module _ {S : Type 0} (handler : Handler S) where
  -- The handler on some entries in turn: how many it processed, and its state.
  unfoldable pub handle_all : List Entry → S → ℕ × S
  handle_all [] s = (0, s)
  handle_all (e ∷ es) s =
      let (fine, s') = attempt handler e.reading s in
      let (n, s'') = handle_all es s' in (if fine then suc n else n, s'')

  dispatch_batch-handle_all :
      (es : List Entry) (pending : List ℕ) (s : S)
      → ((dispatch_batch handler es pending s).0 ≡ (handle_all es s).0)
        × ((dispatch_batch handler es pending s).2 ≡ (handle_all es s).1)
  unfolding dispatch_batch handle_all
  dispatch_batch-handle_all [] pending s = (refl, refl)
  dispatch_batch-handle_all (e ∷ es) pending s =
      let (fine, s') = attempt handler e.reading s in
      let ih = dispatch_batch-handle_all es (settle handler e.id fine pending) s' in
      (ap (λ (n : ℕ). if fine then suc n else n) ih.0, ih.1)

  handle_all-append :
      (xs ys : List Entry) (s : S)
      → let (n, s') = handle_all xs s in
        let (m, s'') = handle_all ys s' in
        ((handle_all (xs ++ ys) s).0 ≡ n + m) × ((handle_all (xs ++ ys) s).1 ≡ s'')
  unfolding handle_all
  handle_all-append [] ys s = (omega arith, refl)
  handle_all-append (x ∷ xs) ys s =
      let (fine, s') = attempt handler x.reading s in
      let ih = handle_all-append xs ys s' in (add_if fine _ _ _ ih.0, ih.1)

  consume-handle_all :
      (rounds batch : ℕ) (st : Stream) (s : S)
      → length st.fresh ≤ rounds * batch
      → let (n, st', s') = consume handler rounds batch st s in
        (st'.fresh ≡ []) × (n ≡ (handle_all st.fresh s).0) × (s' ≡ (handle_all st.fresh s).1)
  unfolding consume consume_once handle_all
  consume-handle_all zero batch st s h =
      let none_left = no_length st.fresh (ground arith) in
      (
        none_left,
        ap (λ (es : List Entry). (handle_all es s).0) (sym none_left),
        ap (λ (es : List Entry). (handle_all es s).1) (sym none_left),
      )
  consume-handle_all (suc rounds) batch st s h =
      let now_in = take batch st.fresh in
      let later = dropped batch st.fresh in
      let (n, p, s1) = dispatch_batch handler now_in (after_delivery handler batch st) s in
      let d = dispatch_batch-handle_all now_in (after_delivery handler batch st) s in
      let a = handle_all-append now_in later s in
      let ih =
        consume-handle_all rounds batch (record { fresh = later; pending = p }) s1
          (omega
            (arith, length-dropped batch st.fresh, one_batch (length st.fresh) rounds batch h)) in
      let whole = take-dropped batch st.fresh in
      (
        ih.0,
        omega (
          arith,
          d.0,
          ih.1,
          ap (λ (u : S). (handle_all later u).0) d.1,
          a.0,
          ap (λ (es : List Entry). (handle_all es s).0) whole,
        ),
        ih.2
            ∙ ap (λ (u : S). (handle_all later u).1) d.1
            ∙ sym a.1
            ∙ ap (λ (es : List Entry). (handle_all es s).1) whole,
      )

  settle-elem :
      (fine : Bool) (b a : ℕ) (pending : List ℕ)
      → (b == a) ≡ false
      → elem a (settle handler b fine pending) ≡ elem a pending
  settle-elem true b a pending other = elem-ack a b pending other
  settle-elem false b a pending other = refl

  dispatch_batch-pending :
      (id : ℕ) (es : List Entry) (pending : List ℕ) (s : S)
      → all (λ e. not (e.id == id)) es ≡ true
      → elem id (dispatch_batch handler es pending s).1 ≡ elem id pending
  unfolding dispatch_batch
  dispatch_batch-pending id [] pending s h = refl
  dispatch_batch-pending id (e ∷ es) pending s h =
      let (fine, s') = attempt handler e.reading s in
      dispatch_batch-pending id es (settle handler e.id fine pending) s' (all_tail (e.id == id) _ h)
      ∙ settle-elem fine e.id id pending (all_head (e.id == id) _ h)

  consume-pending :
      (rounds batch id : ℕ) (st : Stream) (s : S)
      → elem id st.pending ≡ true
      → all (λ e. not (e.id == id)) st.fresh ≡ true
      → elem id (consume handler rounds batch st s).1.pending ≡ true
  unfolding consume consume_once
  consume-pending zero batch id st s waits gone = waits
  consume-pending (suc rounds) batch id st s waits gone =
      let now_in = take batch st.fresh in
      let (n, p, s1) = dispatch_batch handler now_in (after_delivery handler batch st) s in
      consume-pending rounds batch id (record { fresh = dropped batch st.fresh; pending = p }) s1
        (dispatch_batch-pending id now_in (after_delivery handler batch st) s
            (all-take batch _ st.fresh gone)
          ∙ elem-append id st.pending _
          ∙ ap (λ (b : Bool). b || elem id (map (λ (e : Entry). e.id) now_in)) waits)
        (all-dropped batch _ st.fresh gone)

-- In enough rounds `consume` delivers every entry of the stream, in order and once: no entry is left
-- that no consumer has had, and the handler's state and the count of processed entries are those of one
-- pass of the handler over the entries, however they fall into batches.
pub consume_lem :
    {S : Type 0} (handler : Handler S) (rounds batch : ℕ) (st : Stream) (s : S)
    → length st.fresh ≤ rounds * batch
    → let (n, st', s') = consume handler rounds batch st s in
      (st'.fresh ≡ [])
      × (n ≡ (handle_all handler st.fresh s).0)
      × (s' ≡ (handle_all handler st.fresh s).1)
consume_lem handler rounds batch st s h = consume-handle_all handler rounds batch st s h

-- An entry that was delivered and not acknowledged, as after an exception of the handler, stays pending
-- whatever number of rounds `consume` makes, and is never handed to the handler again: in enough rounds
-- the handler's state is what it would be if nothing were pending.
pub consume-never_again :
    {S : Type 0} (handler : Handler S) (rounds batch id : ℕ) (st : Stream) (s : S)
    → elem id st.pending ≡ true
    → all (λ e. not (e.id == id)) st.fresh ≡ true
    → length st.fresh ≤ rounds * batch
    → let (n, st', s') = consume handler rounds batch st s in
      (elem id st'.pending ≡ true)
      × (s' ≡ (consume handler rounds batch (record st { pending = [] }) s).2)
consume-never_again handler rounds batch id st s waits gone h = (
  consume-pending handler rounds batch id st s waits gone,
  (consume-handle_all handler rounds batch st s h).2
      ∙ sym (consume-handle_all handler rounds batch (record st { pending = [] }) s h).2,
)
