-- ===== src/DataSource.antt =====
-- datasource: what the data sources decide themselves. The servers and the schedulers behind them are
-- libraries that the code calls.
pub mod RequestAdmission
pub mod LocalInterval
pub mod CronExpression
pub mod CronEndpoint
