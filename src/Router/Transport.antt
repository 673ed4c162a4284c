-- ===== src/Router/Transport.antt =====
-- `TransportMap` of core/model_transport.py: which alias is which model, and by which path.
use gestalt_workframe.Prelude.{
  ℕ, String, Option, none, some, [], ◌∷◌, ◌==◌, text_key, or_default, if◌then◌else◌,
}
use gestalt_workframe.Prelude.Assoc.{Assoc}
use gestalt_workframe.Router.Routes.{Words}

-- `direct_aliases` maps ids of the catalog to aliases.
pub record TransportMap : Type 0 where
  pub gateway_prefix : String
  pub direct_aliases : Assoc String String

-- `_alias_to_catalog.get(alias)`: of two ids with one alias the later counts
unfoldable pub alias_to_catalog : String → Assoc String String → Option String
alias_to_catalog alias [] = none
alias_to_catalog alias ((id, a) ∷ m) = elim (alias_to_catalog alias m) [
  | some later ↦ some later
  | none ↦ if a == alias then some id else none
]

-- the rest of an alias that the gateway's prefix starts
unfoldable pub after_gateway : Words → TransportMap → String → Option String
after_gateway w t alias =
    if t.gateway_prefix == "" then none else w.after_prefix t.gateway_prefix alias

unfoldable pub catalog_id : Words → TransportMap → String → String
catalog_id w t alias = elim (after_gateway w t alias) [
  | some rest ↦ rest
  | none ↦ or_default (alias_to_catalog alias t.direct_aliases) alias
]

-- 0 for the aggregator, 1 for a direct alias, 2 for any other
unfoldable pub transport_kind : Words → TransportMap → String → ℕ
transport_kind w t alias = elim (after_gateway w t alias) [
  | some rest ↦ 0
  | none ↦ elim (alias_to_catalog alias t.direct_aliases) [ some id ↦ 1 | none ↦ 2 ]
]
