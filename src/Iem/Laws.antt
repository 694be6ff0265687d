-- ===== src/Iem/Laws.antt =====
-- What is received of an event that was sent.
use cortx_utils.Base.{Text, true, some, ◌≡◌, refl, ok, Result-cases, inl, inr, arith}
use cortx_utils.Base.Exec.{continue}
use cortx_utils.Value.{Value}
use cortx_utils.Activity.Checks.{Json}
use cortx_utils.Activity.Shown.{IsExactJson}
use cortx_utils.Iem.Shape.{IsAlertOf, alert-IsAlertOf}
use cortx_utils.Iem.{EventMessage, Bus, Event, alert, named, send, decode, receive}

-- A consumer that has read all messages gets the one that is sent next.
pub record IsDelivered (B : Bus) (w : B.World) : Type 0 where
  pub received : (t : Text) → (B.send t w).0 ≡ ok tt → (B.receive (B.send t w).1).0 ≡ ok (some t)

-- An event that `send` sent without an exception is received as an alert whose entries are those of
-- the event and of the class that sent it: the names of the severity and of the source, what was given or what
-- stands for it, and neither the module, the event, the message, the cluster nor the node `None`. The class has
-- subscribed, the bus delivers the next message and `json` reads back what it wrote.
pub receive-send :
    (J : Json) (B : Bus) (e : Event) (host now : Value) (c : EventMessage) (w : B.World)
    → IsExactJson J
    → IsDelivered B w
    → c.producer ≡ true
    → c.consumer ≡ true
    → (send J B e host now (c, w)).0 ≡ ok tt
    → (v : Value) × ((receive J B (send J B e host now (c, w)).1).0 ≡ ok v)
      × IsAlertOf c e host now v
unfolding send receive decode
receive-send J B e host now c w E D produces consumes sent = elim (Result-cases (named J B c e)) [
  | inl ((level, kind), known) ↦
      let t = J.dumps (alert c e host now level kind) in
      let done = rw (known, continue) at (simp produces at sent) in
      (
        alert c e host now level kind,
        simp produces (
            rw (known, continue)
              (simp consumes (
                rw (D.received t done, continue)
                  (rw (E.loads-dumps (alert c e host now level kind), decode) refl)))),
        alert-IsAlertOf J B c e host now level kind known,
      )
  | inr (raised, bad) ↦ absurd (ground (arith, rw (bad, continue) at (simp produces at sent)))
]
