-- ===== src/Machine/Delays.antt =====
-- The delays of devices/timer.c leave the CPU where it is.
use os_pintos.Base.{◌*◌}
use os_pintos.Base.Int.{ℤ, pos}
use os_pintos.Machine.Quiet.{Quiet, quiet_rules}
use os_pintos.Delay.{
  busy_wait, real_time_delay, real_time_sleep, timer_msleep, timer_usleep, timer_nsleep,
  timer_mdelay, timer_udelay, timer_ndelay,
}

pub busy_wait-Quiet : (loops : ℤ) → Quiet (busy_wait loops)
unfolding busy_wait
busy_wait-Quiet loops = search quiet_rules

delay-Quiet : (num denom : ℤ) → Quiet (real_time_delay num denom)
unfolding real_time_delay
delay-Quiet num denom = search quiet_rules depth 20

sleep-Quiet : (num denom : ℤ) → Quiet (real_time_sleep num denom)
unfolding real_time_sleep
sleep-Quiet num denom = search (quiet_rules, delay-Quiet) depth 20

pub timer_msleep-Quiet : (ms : ℤ) → Quiet (timer_msleep ms)
unfolding timer_msleep
timer_msleep-Quiet ms = sleep-Quiet ms (pos 1000)

pub timer_usleep-Quiet : (us : ℤ) → Quiet (timer_usleep us)
unfolding timer_usleep
timer_usleep-Quiet us = sleep-Quiet us (pos (1000 * 1000))

pub timer_nsleep-Quiet : (ns : ℤ) → Quiet (timer_nsleep ns)
unfolding timer_nsleep
timer_nsleep-Quiet ns = sleep-Quiet ns (pos (1000 * 1000 * 1000))

pub timer_mdelay-Quiet : (ms : ℤ) → Quiet (timer_mdelay ms)
unfolding timer_mdelay
timer_mdelay-Quiet ms = delay-Quiet ms (pos 1000)

pub timer_udelay-Quiet : (us : ℤ) → Quiet (timer_udelay us)
unfolding timer_udelay
timer_udelay-Quiet us = delay-Quiet us (pos (1000 * 1000))

pub timer_ndelay-Quiet : (ns : ℤ) → Quiet (timer_ndelay ns)
unfolding timer_ndelay
timer_ndelay-Quiet ns = delay-Quiet ns (pos (1000 * 1000 * 1000))
