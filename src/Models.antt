-- ===== src/Models.antt =====
-- internal/models: the records that the services pass around, with the fields that they read or
-- write. An `int` that is a key of a table is a natural number, 0 being Go's zero value; `*int` is
-- an `Option`; a `time.Time` is the number of nanoseconds since a fixed origin.
pub mod Users
pub mod Leads
pub mod Deals
