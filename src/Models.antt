-- ===== src/Models.antt =====
-- app/models: one record for each table, with the columns that the services read or write.
-- Primary keys and foreign keys are numbers. Moments are instants (Prelude.Dates).
pub mod Production
pub mod Tickets
pub mod Audit
pub mod Triggers
pub mod Training
pub mod Auth
pub mod Quality
