-- ===== src/Tests.antt =====
-- Runs of the models on concrete inputs, and the theorems applied to them.
mod Tcp
mod Ftp
mod Device
mod Threads
mod Msg
mod Files
mod Udp
mod Ftp2
mod Gpio
mod Shm
mod Clients
mod Screen
mod Camera
mod Rw
mod Mutex
mod Mgrep
mod Fifo
