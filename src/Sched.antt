-- ===== src/Sched.antt =====
-- inferencesim/sched.py: tasks, and what a graph of tasks is.
pub mod Heap
pub mod Task
pub mod Times
pub mod Schedule
pub mod Loop
pub mod Count
pub mod Children
pub mod Release
pub mod Ending
pub mod Within
pub mod Popped
pub mod Capacity
pub mod Spent
pub mod Slots
pub mod Fifo
pub mod First
pub mod Valid
pub mod Busy
pub mod Worked
pub mod Limited
pub mod Critical
pub mod Examples
