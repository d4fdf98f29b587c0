-- ===== src/Schemas.antt =====
-- The data that the stages of the pipeline exchange (app/schemas/): the enumerations of the signals
-- and verdicts, and the result records.
pub mod Signals
pub mod Results
