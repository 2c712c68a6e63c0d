-- ===== src/Domain.antt =====
-- src/sentinel_edge/domain/models.py: the enumerations and records that the components share. A
-- `UUID` is a number that is only compared, a `datetime` its instant in microseconds.
pub mod Kinds
pub mod Records
