-- ===== src/Async/Synchronized/Invariant.antt =====
-- The invariant, in every state that any steps of the worker and of the calling threads lead to.
mod Defs
mod Worker
mod Clients
pub use Defs.*
use Defs.{Inv, Serves, Cycle, none_yet}
use Worker.{worker-Inv}
use Clients.{client-Inv, move-Inv, enter-Free, announce-Inv, wake-Inv, join-Inv}
use mathlib.Core.Path.{subst}
use portage_realtime_tools_e.Base.{sym, ◌≡◌, refl, true, false, Option, none, List, [], arith}
use portage_realtime_tools_e.Async.Handler.{Types, Handler, free}
use portage_realtime_tools_e.Async.Synchronized.{
  WorkerPc, ClientPc, enter, wake, System, Step, worker_runs, announces, worker_wakes_up, calls,
  client_runs, client_wakes_up, notifies, stop_notifies, joins, started, Reach, here, next,
}

-- A handler that `start_thread` has started, with no cycle recorded yet.
pub record IsFresh {k : Types} (h : Handler k) : Type 0 where
  pub unlocked : h.mutex ≡ free
  pub not_triggered : h.trigger_in_progress ≡ false
  pub none_triggered : h.triggered ≡ []
  pub none_executed : h.executed ≡ []

module _ {k : Types} (new_return : k.Return) (zero_duration : k.Duration) where
  started-Inv : (h : Handler k) → IsFresh h → Inv h WorkerPc.head (λ i. ClientPc.idle) none []
  started-Inv h f = record {
    worker_owns = λ w. cc;
    client_owns = λ i d. cc;
    logs = f.none_triggered;
    serves = subst (λ x. Serves x []) (sym f.none_executed) none_yet;
    cleared = λ z. refl;
    pending = λ m. ground arith;
    client_fact = λ i. tt;
    worker_fact = tt;
  }

  Step-Inv :
      (s t : System k) (rest : Option (Cycle k)) (past : List (Cycle k))
      → Inv s.handler s.worker s.clients rest past
      → Step new_return zero_duration s t
      → (rest' : Option (Cycle k)) × (past' : List (Cycle k)) × Inv t.handler t.worker t.clients
          rest' past'
  unfolding wake
  Step-Inv s _ rest past inv (worker_runs a time e n) =
      (_, _, worker-Inv s.worker a time s.handler s.clients rest past inv e)
  Step-Inv s _ rest past inv (announces e) = (
    rest,
    past,
    announce-Inv new_return zero_duration s.handler s.clients rest past
        (subst (λ q. Inv s.handler q s.clients rest past) e inv),
  )
  Step-Inv s _ rest past inv (worker_wakes_up e) = (
    rest,
    past,
    wake-Inv new_return zero_duration s.handler WorkerPc.waiting s.clients rest past
        (subst (λ q. Inv s.handler q s.clients rest past) e inv),
  )
  Step-Inv s _ rest past inv (calls i c e) = (
    rest,
    past,
    move-Inv new_return zero_duration i (enter c s.handler) s.handler s.worker s.clients rest past
        inv (enter-Free new_return zero_duration c s.handler),
  )
  Step-Inv s _ rest past inv (client_runs wanted i e) = (
    _,
    _,
    client-Inv new_return zero_duration (s.clients i) wanted i s.handler s.worker s.clients rest
        past inv refl e,
  )
  Step-Inv s _ rest past inv (client_wakes_up i e) = (
    rest,
    past,
    move-Inv new_return zero_duration i ClientPc.wait_woken s.handler s.worker s.clients rest past
        inv (refl, λ h r. tt),
  )
  Step-Inv s _ rest past inv (notifies i e) = (
    rest,
    past,
    move-Inv new_return zero_duration i (ClientPc.reading true) s.handler (wake s.worker) s.clients
        rest past (wake-Inv new_return zero_duration s.handler s.worker s.clients rest past inv)
        (refl, λ h r. tt),
  )
  Step-Inv s _ rest past inv (stop_notifies i e) = (
    rest,
    past,
    move-Inv new_return zero_duration i ClientPc.joining s.handler (wake s.worker) s.clients rest
        past (wake-Inv new_return zero_duration s.handler s.worker s.clients rest past inv)
        (refl, λ h r. tt),
  )
  Step-Inv s _ rest past inv (joins i e f) = (
    rest,
    past,
    move-Inv new_return zero_duration i ClientPc.idle (record s.handler { joinable = false })
        s.worker s.clients rest past
        (join-Inv new_return zero_duration s.handler s.worker s.clients rest past inv)
        (refl, λ h r. tt),
  )

  pub Reach-Inv :
      (h : Handler k) (s : System k)
      → IsFresh h
      → Reach new_return zero_duration (started h) s
      → (rest : Option (Cycle k)) × (past : List (Cycle k)) × Inv s.handler s.worker s.clients rest
          past
  Reach-Inv h _ f here = (none, [], started-Inv h f)
  Reach-Inv h t f (next {t = s} r st) =
      let (rest, past, inv) = Reach-Inv h s f r in Step-Inv s t rest past inv st
