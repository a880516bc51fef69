-- ===== src/Klog.antt =====
-- linux-c/klog-demo.c: the kernel's log read by `klogctl`. `ReadNew` is `klog_read_new`, which finds
-- what is new in the log; `Demos` has the other functions.
mod ReadNew
mod Demos
mod Boundary
mod LastLine
mod Steps
mod Written
mod Tests
