-- ===== src/Fsm/Envelope.antt =====
-- Building event envelopes: backend/utils/FSM.go, `NewEnvelope`, `WithActor`, `WithMeta`. The id and
-- the time are what `uuid.NewString()` and `time.Now()` give.
use rems.Prelude.{String, Option, [], ◌∷◌, string_eq}
use rems.Prelude.Dict.{Dict, insert}
use rems.Fsm.Types.{Signature, Uuid, Time, EventEnvelope}

module _ {σ : Signature} where
  unfoldable pub new_envelope : String → Time → σ.Event → Option σ.Payload → EventEnvelope σ
  new_envelope id now event payload = record {
    id = id;
    event = event;
    payload = payload;
    actor_id = 0;
    tenant_id = 0;
    occurred_at = now;
    metadata = [];
  }

  unfoldable pub with_actor : Uuid → Uuid → EventEnvelope σ → EventEnvelope σ
  with_actor actor_id tenant_id e = record e { actor_id = actor_id; tenant_id = tenant_id }

  -- A nil map and an empty one are the same dictionary.
  unfoldable pub with_meta : String → String → EventEnvelope σ → EventEnvelope σ
  with_meta key value e = record e { metadata = insert string_eq key value e.metadata }

  -- `for k, v := range meta { env = env.WithMeta(k, v) }`
  unfoldable pub with_all_meta : Dict String String → EventEnvelope σ → EventEnvelope σ
  with_all_meta [] e = e
  with_all_meta ((k, v) ∷ meta) e = with_all_meta meta (with_meta k v e)
