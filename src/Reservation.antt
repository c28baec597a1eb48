-- ===== src/Reservation.antt =====
-- The cash reservations of src/hqmts/reservation, with the domain model, the table and the queries
-- behind them.
pub mod Store
pub mod Manager
mod Examples
