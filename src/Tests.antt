-- ===== src/Tests.antt =====
-- Runs of the model on concrete inputs, and the theorems at inputs that meet their hypotheses.
mod CableTests
mod Drives
mod HddTests
mod MetaTests
mod MscTests
mod RawTests
mod ScsiTests
mod UsbLogTests
mod WdTests
