-- ===== src/Governor.antt =====
-- governor/: the library that holds the engines' clock floors. Times are nanoseconds of a monotonic
-- clock, so they are natural numbers; nought stands for no time, as in the source.
pub mod ClockSteps
pub mod EngineClock
pub mod FenceWatch
pub mod FloorLane
pub mod GpuClock
pub mod Mailbox
mod Tests
