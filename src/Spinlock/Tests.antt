-- ===== src/Spinlock/Tests.antt =====
-- A concrete processor for spinlock.c.
use test_ascii.Common.{true, false}
use test_ascii.Spinlock.{Cpu}

abbrev running : Cpu
running = record { ncli = 0; intena = false; enabled = true }
