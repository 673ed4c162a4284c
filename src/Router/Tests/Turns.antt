-- ===== src/Router/Tests/Turns.antt =====
-- The theorems on turns of core/router.py, at the outage.
use gestalt_workframe.Prelude.{ℕ, ◌≡◌, refl, inr, true, false, some, [], ◌∷◌, text_key, arith}
use gestalt_workframe.Prelude.Assoc.{get}
use gestalt_workframe.Budget.Clock.{plain_calendar}
use gestalt_workframe.Budget.Database.{counter_key_eq}
use gestalt_workframe.Budget.Gate.{count_of}
use gestalt_workframe.Budget.Gate.Caps.{IsWithinCaps}
use gestalt_workframe.Budget.Multi.{MultiProviderBudgetGate, MultiFaults}
use gestalt_workframe.Budget.Tests.{calm, calm_provider, config, gate, anthropic, fresh}
use gestalt_workframe.Router.Routes.{ProviderRoute, is_listed, is_provided_by}
use gestalt_workframe.Router.State.{LlmRouter, is_healthy, route_key}
use gestalt_workframe.Router.Gate.{route_temporarily_blocked}
use gestalt_workframe.Router.Chat.{Surroundings, chat}
use gestalt_workframe.Router.Budgets.{multi_gate}
use gestalt_workframe.Router.Passed.{Passed}
use gestalt_workframe.Router.Orderly.{IsPaid}
use gestalt_workframe.Router.Turns.{run_chats, chat_calls-IsPaid, chat_frees_slots}
use gestalt_workframe.Router.Breaker.{NotPrimary, breaker_never_closes}
use gestalt_workframe.Router.Spending.{HasGate, chats-IsWithinCaps, gated_provider_never_called}
use gestalt_workframe.Router.Tests.{
  plain_words, cloud_route, router, shop, turn, outage, one_gate, round,
}
use gestalt_workframe.Router.Stream.{Chunks, stream_chat}
use gestalt_workframe.Router.Source.{IsOneSource, routes_of_turn, stream_chat-IsOneSource}
use gestalt_workframe.Router.Streams.{stream_calls-IsPaid}

chat_calls-IsPaid_example :
    IsPaid
      (Passed plain_words turn "prefer_local")
      (λ x. Unit)
      (chat one_gate shop outage turn (router, (gate, fresh), [])).0.2
chat_calls-IsPaid_example = chat_calls-IsPaid one_gate shop outage turn router (gate, fresh)

chat_frees_slots_example :
    (chat one_gate shop outage turn (router, (gate, fresh), [])).0.0.active ≡ router.active
chat_frees_slots_example = chat_frees_slots one_gate shop outage turn router (gate, fresh)

fresh-counters : IsWithinCaps config fresh.db.counters
unfolding count_of get
fresh-counters = record {
  session_ok = λ s. inr (omega arith);
  day_ok = λ d. inr (omega arith);
  month_ok = λ m. inr (omega arith);
}

chats-IsWithinCaps_example :
    IsWithinCaps config
      (run_chats one_gate plain_words
        (round ∷ round ∷ round ∷ [])
        router
        (gate, fresh)).1.1.db.counters
chats-IsWithinCaps_example =
    chats-IsWithinCaps plain_calendar (λ now. calm) plain_words (round ∷ round ∷ round ∷ []) router
      gate fresh fresh-counters

abbrev pub two_gates : MultiProviderBudgetGate
two_gates = record {
  global_gate = some gate;
  gates = ("anthropic", anthropic) ∷ [];
  headroom_cache = [];
}

abbrev pub multi_faults : ℕ → MultiFaults
multi_faults now = record { global = calm; provider = calm_provider }

anthropic-HasGate : HasGate "anthropic" two_gates
unfolding get
anthropic-HasGate = (anthropic, refl)

gated_provider_never_called_example :
    IsPaid
      (Passed plain_words turn "prefer_local")
      (λ x. (text_key.agree x.provider_budget_id "anthropic") ≡ false)
      (chat
        (multi_gate plain_calendar multi_faults (λ now p. false))
        shop
        outage
        turn
        (router, (two_gates, fresh), [])).0.2
gated_provider_never_called_example =
    gated_provider_never_called plain_calendar multi_faults (λ now p. false) shop outage turn router
      two_gates fresh "anthropic" refl anthropic-HasGate

-- The breaker of the cloud route has opened.
abbrev tripped : LlmRouter
tripped = record router { route_breaker_open = "claude" ∷ [] }

claude_open : is_listed (route_key plain_words cloud_route) tripped.route_breaker_open ≡ true
unfolding is_listed route_key
claude_open = refl

claude-NotPrimary : NotPrimary plain_words (route_key plain_words cloud_route) tripped
unfolding is_provided_by route_key
claude-NotPrimary = (refl, (refl, tt))

breaker_never_closes_example :
    route_temporarily_blocked plain_words
      (run_chats one_gate plain_words (round ∷ round ∷ []) tripped (gate, fresh)).0
      cloud_route
    ≡ true
breaker_never_closes_example =
    breaker_never_closes one_gate plain_words (round ∷ round ∷ []) tripped (gate, fresh) cloud_route
      claude_open claude-NotPrimary

-- The local model streams two chunks and breaks off.
abbrev broken_stream : ProviderRoute → Chunks
broken_stream x = record { texts = "hel" ∷ "" ∷ "lo" ∷ []; breaks = true }

-- The local model is up.
abbrev calm_day : Surroundings
calm_day = record outage { probe = λ x. is_healthy true }

stream_chat-IsOneSource_example :
    IsOneSource calm_day turn broken_stream
      (routes_of_turn one_gate shop calm_day turn broken_stream (router, (gate, fresh), []))
      (
        (stream_chat one_gate shop calm_day turn broken_stream (router, (gate, fresh), [])).1,
        (stream_chat one_gate shop calm_day turn broken_stream (router, (gate, fresh), [])).2,
      )
stream_chat-IsOneSource_example =
    stream_chat-IsOneSource one_gate shop calm_day turn broken_stream (router, (gate, fresh), [])

stream_calls-IsPaid_example :
    IsPaid
      (Passed plain_words turn "prefer_local")
      (λ x. Unit)
      (stream_chat one_gate shop calm_day turn broken_stream (router, (gate, fresh), [])).0.2
stream_calls-IsPaid_example =
    stream_calls-IsPaid one_gate shop calm_day turn broken_stream router (gate, fresh)
