-- ===== src/Tests.antt =====
-- Runs of the model at concrete data, and the theorems at inputs that meet their hypotheses.
mod Demo
mod StoreRuns
mod StoreClaims
mod HistoryRuns
mod EngineRuns
mod GeoRuns
mod LogRuns
mod ConfigRuns
mod CompilerRuns
mod NftRuns
mod SharedRuns
mod SchemaRuns
mod LegacyRuns
mod RestoreRuns
mod ModuleRuns
mod BuildRuns
