-- ===== src/Async/Detached/Cycles.antt =====
-- The arguments of the callback under the detached policy.
use portage_realtime_tools_e.Base.{ℕ, ◌≡◌, ◌≢◌}
use portage_realtime_tools_e.Async.Handler.{Types, Handler}
use portage_realtime_tools_e.Async.Detached.Schedule.{Doubles}
use portage_realtime_tools_e.Async.Detached.{WorkerPc, ClientPc, Clocks, System, started, Reach}
use portage_realtime_tools_e.Async.Detached.Invariant.{
  with_pending, calls_of, IsFresh, Measured, Reach-Inv,
}

module _ {k : Types} (clocks : Clocks k) (d : Doubles) (new_return : k.Return)
    (zero_duration : k.Duration) where
  pub measured_periods :
      (h : Handler k) (s : System k)
      → IsFresh h
      → Reach d clocks new_return zero_duration (started h) s
      → (i : ℕ)
      → Measured clocks s.shared.marks
        × (calls_of s.shared.marks ≡ with_pending s.worker s.shared.called)
        × (s.worker ≢ WorkerPc.aborted)
        × (s.clients i ≢ ClientPc.faulted)
  measured_periods h s f r i =
      let inv = Reach-Inv clocks d new_return zero_duration h s f r in
      (inv.measured, inv.recorded, inv.alive, inv.unfaulted i)
