-- ===== src/Tests.antt =====
-- Runs of the models at concrete inputs, and the theorems applied to them.
mod GateTests
mod MapTests
mod HeroTests
mod LoginTests
mod NetTests
mod GameTests
mod DbTests
mod TimerTests
mod TextTests
mod ServerTests
mod ToyTests
mod ProtoTests
mod ConfigTests
mod SuitTests
