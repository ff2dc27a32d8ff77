-- ===== src/Tests.antt =====
-- Runs of the definitions at concrete inputs, and the theorems of the library at inputs that meet their
-- hypotheses.
mod MemoryRuns
mod CrtpRuns
mod UtilsRuns
mod TocRuns
mod ParamRuns
mod LogRuns
mod AddressingRuns
mod HelperRuns
mod BootloaderRuns
