-- ===== src/SyncClient/Manager/Flush.antt =====
-- flushQueued of internal/syncclient/websocket_manager_runtime.go, while nothing else is queued.
use convex_go.Prelude.{
  ℕ, suc, zero, ◌<◌, ◌≡◌, refl, sym, ap, ◌⊎◌, inl, inr, List, [], ◌∷◌, ◌++◌, length, none, some,
  arith,
}
use mathlib.Core.Path.{subst}
use convex_go.Core.Error.{Error, Result, ok, err, Result-cases}
use convex_go.Protocol.{ClientMessage}
use convex_go.BaseClient.State.{Client}
use convex_go.BaseClient.Queries.{pop_next_message}
use convex_go.SyncProtocol.Json.{Json, Strconv}
use convex_go.SyncProtocol.Projection.{client_sent}
use convex_go.SyncClient.Manager.{write_client_message}

-- How the loop ends; `cut_off` is no end of it: the fuel ran out.
pub data FlushEnd : Type 0 where
  finished cut_off : FlushEnd
  failed : Error → FlushEnd

pub record Flushed : Type 0 where
  pub client : Client
  pub written : List ClientMessage
  pub end : FlushEnd

abbrev also : ClientMessage → Flushed → Flushed
also m f = record f { written = m ∷ f.written }

module _ (S : Strconv) (write : ClientMessage → Json → Result (Unit {0})) where
  -- A message that was taken from the queue: the loop goes on if it could be written.
  unfoldable pub after_write : ClientMessage → Client → Flushed → Flushed
  unfolding write_client_message client_sent
  after_write m c rest = elim (write_client_message S (write m) (client_sent m)) [
    | err e ↦ record { client = c; written = []; end = failed e }
    | ok done ↦ also m rest
  ]

  -- flushQueued
  unfoldable pub flush_queued : ℕ → Client → Flushed
  unfolding pop_next_message after_write
  flush_queued zero c = record { client = c; written = []; end = cut_off }
  flush_queued (suc fuel) c =
      let (c', message) = pop_next_message c in
      let rest = flush_queued fuel c' in
      elim message [
        | none ↦ record { client = c'; written = []; end = finished }
        | some m ↦ after_write m c' rest
      ]

  -- All is written and the queue is empty; or the write of one message failed, those before it are
  -- written, and those after it still wait. Nothing but the queue has changed.
  abbrev pub IsFlushed : Client → Flushed → Type 0
  IsFlushed c f =
      ((f.end ≡ finished) × (f.written ≡ c.outgoing) × (f.client ≡ record c { outgoing = [] }))
      ⊎ ((e : Error) × (m : ClientMessage) × (rest : List ClientMessage) × (f.end ≡ failed e)
          × (write_client_message S (write m) (client_sent m) ≡ err e)
          × (c.outgoing ≡ f.written ++ m ∷ rest)
          × (f.client ≡ record c { outgoing = rest }))

  after_write_err :
      (m : ClientMessage) (c : Client) (rest : Flushed) (e : Error)
      → write_client_message S (write m) (client_sent m) ≡ err e
      → after_write m c rest ≡ record { client = c; written = []; end = failed e }
  unfolding after_write
  after_write_err m c rest e h = ground arith

  after_write_ok :
      (m : ClientMessage) (c : Client) (rest : Flushed) (done : Unit)
      → write_client_message S (write m) (client_sent m) ≡ ok done
      → after_write m c rest ≡ also m rest
  unfolding after_write
  after_write_ok m c rest done h = ground arith

  -- One more message was written first.
  longer :
      (m : ClientMessage) (c : Client) (ms : List ClientMessage) (f : Flushed)
      → IsFlushed (record c { outgoing = ms }) f
      → IsFlushed (record c { outgoing = m ∷ ms }) (also m f)
  longer m c ms f (inl (ended, all, emptied)) = inl (ended, ap (λ l. m ∷ l) all, emptied)
  longer m c ms f (inr (e, n, rest, ended, wrong, parts, kept)) =
      inr (e, n, rest, ended, wrong, ap (λ l. m ∷ l) parts, kept)

  flush-from :
      (fuel : ℕ) (ms : List ClientMessage) (c : Client)
      → length ms < fuel
      → IsFlushed (record c { outgoing = ms }) (flush_queued fuel (record c { outgoing = ms }))
  unfolding flush_queued pop_next_message after_write
  flush-from zero ms c h = absurd (omega arith)
  flush-from (suc fuel) [] c h = inl (refl, refl, refl)
  flush-from (suc fuel) (m ∷ ms) c h =
      let c' = record c { outgoing = ms } in
      elim (Result-cases (write_client_message S (write m) (client_sent m))) [
        | inl (e, wrong) ↦
            subst (IsFlushed (record c { outgoing = m ∷ ms }))
              (sym (after_write_err m c' _ e wrong)) (inr (e, m, ms, refl, wrong, refl, refl))
        | inr (done, right) ↦
            subst (IsFlushed (record c { outgoing = m ∷ ms }))
              (sym (after_write_ok m c' _ done right))
              (longer m c ms (flush_queued fuel c') (flush-from fuel ms c (omega arith)))
      ]

  -- flushQueued comes to an end when it is given one more round than there are messages. Then all
  -- of them were written in order and the queue is empty; or the write of one failed, exactly those
  -- before it were written in order, and those after it still wait. Nothing else has changed.
  pub flush_queued-IsFlushed :
      (fuel : ℕ) (c : Client) → length c.outgoing < fuel → IsFlushed c (flush_queued fuel c)
  flush_queued-IsFlushed fuel c h = flush-from fuel c.outgoing c h
