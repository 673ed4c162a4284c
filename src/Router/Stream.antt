-- ===== src/Router/Stream.antt =====
-- `stream_chat` of core/router.py: the loop that yields a local provider's chunks, or the whole answer of
-- a cloud route.
use gestalt_workframe.Prelude.{
  String, Bool, true, false, not, none, some, List, [], ◌∷◌, ◌==◌, text_key, leb, map,
  if◌then◌else◌, select,
}
use gestalt_workframe.Router.Routes.{ProviderRoute, is_cloud, has_provider}
use gestalt_workframe.Router.Slots.{can_start, started, finished}
use gestalt_workframe.Router.State.{LlmRouter, local_route_callable, record_route_failure}
use gestalt_workframe.Router.Gate.{Turn}
use gestalt_workframe.Router.Synthesis.{Deployment}
use gestalt_workframe.Router.Order.{ordered_routes}
use gestalt_workframe.Router.Chat.{
  SpendGate, Surroundings, Effect, calls, succeeded, skipped, failed, Scene, Tried, with_slot,
  look_at_breaker,
}

-- What the generator yields: a text, or one of the two degraded answers.
pub data Piece : Type 0 where
  text : String → Piece
  unavailable_text required_text : Piece

-- `stream_chat` returns, or raises after what it has yielded.
pub data Ending : Type 0 where
  returns raises : Ending

-- The texts of the chunks of a local provider's stream, as `_chunk_text` reads them, and whether the stream
-- raises after them.
pub record Chunks : Type 0 where
  pub texts : List String
  pub breaks : Bool

-- the texts that are not empty
unfoldable pub sent : Chunks → List Piece
sent c = map (λ s. text s) (select (λ s. not (s == "")) c.texts)

unfoldable pub is_empty : List Piece → Bool
is_empty [] = true
is_empty (p ∷ ps) = false

unfoldable pub degraded_pieces : Turn → List Piece
degraded_pieces t = (if t.context_cloud_eligible then unavailable_text else required_text) ∷ []

module _ (g : SpendGate) (d : Deployment) (o : Surroundings) (t : Turn)
    (stream : ProviderRoute → Chunks) where
  abbrev pub Streamed : Type 0
  Streamed = Scene g d o t × List Piece × Ending

  -- the branch of a cloud route, which has no `except`
  unfoldable pub after_cloud : (Scene g d o t → Streamed) → Tried g d o t → Streamed
  after_cloud rest (scene, succeeded reply) = (scene, text reply.content ∷ [], returns)
  after_cloud rest (scene, skipped) = rest scene
  after_cloud rest (scene, failed) = (scene, [], raises)

  -- a stream inside its slot, which is given back before the `except`
  unfoldable pub stream_local :
      ProviderRoute → (Scene g d o t → Streamed) → LlmRouter → g.Store → List Effect → Streamed
  stream_local x rest r s es =
      let pieces = sent (stream x) in
      let ended = record r { active = finished (is_cloud x) (started (is_cloud x) r.active) } in
      let lost = record_route_failure d.words x ended in
      let after = calls x none ∷ es in
      let next = rest (lost, s, after) in
      if not (stream x).breaks
      then ((ended, s, after), pieces, returns)
      else if is_empty pieces
      then next
      else ((lost, s, after), pieces, raises)

  unfoldable pub stream_route :
      ProviderRoute → (Scene g d o t → Streamed) → Scene g d o t → Streamed
  unfolding after_cloud stream_local
  stream_route x rest (r, s, es) =
      let (callable, r') = local_route_callable d.words (o.monotonic_at x) (o.probe x) x r in
      let past = rest (r, s, es) in
      let past' = rest (r', s, es) in
      let on_cloud = after_cloud rest (with_slot g d o t x (r, s, es)) in
      let on_local = stream_local x rest r' s es in
      if not (has_provider x)
      then past
      else if is_cloud x
      then on_cloud
      else if not callable
      then past'
      else if not (can_start r'.concurrency (is_cloud x) r'.active)
      then past'
      else on_local

  -- the end: the primary's breaker opens at the count of all errors
  unfoldable pub give_up : Scene g d o t → Streamed
  give_up (r, s, es) =
      if leb r.error_threshold r.error_count
      then ((record r { breaker_open = true }, s, es), degraded_pieces t, returns)
      else ((r, s, es), degraded_pieces t, returns)

  unfoldable pub stream_loop : List ProviderRoute → Scene g d o t → Streamed
  unfolding stream_route give_up
  stream_loop [] scene = give_up scene
  stream_loop (x ∷ xs) scene = stream_route x (stream_loop xs) scene

  unfoldable pub stream_ordered : LlmRouter → g.Store → List Effect → Streamed
  unfolding stream_loop
  stream_ordered r s es =
      let s' = g.refresh o.utc s in
      let (routes, r') = ordered_routes d (g.headroom s') o.monotonic t r in
      stream_loop routes (r', s', es)

  unfoldable pub stream_chat : Scene g d o t → Streamed
  unfolding stream_ordered
  stream_chat (r, s, es) = elim (look_at_breaker g d o t o.primary_healthy r) [
    | none ↦ ((r, s, es), [], raises)
    | some r' ↦ stream_ordered r' s es
  ]
