-- ===== src/Publisher/Invariant.antt =====
-- The invariant of the publisher, in every state that any steps of any threads lead to.
mod Defs
mod Loop
mod Clients
pub use Defs.*
use Defs.{Inv, Inv-initial}
use Loop.{left, loop-Inv, wakes_up-Inv}
use Clients.{stored, enter-Inv, client-Inv, notify-Inv}
use portage_realtime_tools_e.Base.{refl, Option, none}
use portage_realtime_tools_e.Publisher.{
  System, Step, loop_runs, wakes_up, calls, client_runs, notifies, initial, Reach, here, next,
}

module _ {M : Type 0} where
  Step-Inv :
      (s t : System M) (rest : Option M)
      → Inv s.shared s.loop s.clients rest
      → Step s t
      → (rest' : Option M) × Inv t.shared t.loop t.clients rest'
  Step-Inv s _ rest inv (loop_runs h) =
      (left s.loop rest, loop-Inv s.shared s.loop s.clients rest inv h)
  Step-Inv s _ rest inv (wakes_up e) = (rest, wakes_up-Inv s.shared s.loop s.clients rest inv e)
  Step-Inv s _ rest inv (calls i c e h) =
      (rest, enter-Inv i c s.shared s.loop s.clients rest inv e h)
  Step-Inv s _ rest inv (client_runs i h) = (
    stored (s.clients i) rest,
    client-Inv i s.shared s.loop s.clients rest (s.clients i) inv refl h,
  )
  Step-Inv s _ rest inv (notifies i e) = (rest, notify-Inv i s.shared s.loop s.clients rest inv e)

  -- What holds of the system after any steps of any threads, for some message left to publish.
  pub Reach-Inv :
      (m : M) (s : System M)
      → Reach (initial m) s
      → (rest : Option M) × Inv s.shared s.loop s.clients rest
  Reach-Inv m _ here = (none, Inv-initial m)
  Reach-Inv m t (next {t = s} r st) = let (rest, inv) = Reach-Inv m s r in Step-Inv s t rest inv st
