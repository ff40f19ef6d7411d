-- ===== src/Base/Dict.antt =====
-- A Python dict keyed by text, in insertion order.
use mathlib.Core.Option.{Option, none, some}
use mathlib.Core.List.{List, [], ◌∷◌}
use hivewiki_web.Base.Tests.{if◌then◌else◌}
use hivewiki_web.Base.Text.{Text, text_eq}

abbrev pub Dict : Type 0 → Type 0
Dict V = List (Text × V)

module _ {V : Type 0} where
  -- `d.get(k)`
  abbrev pub lookup : Text → Dict V → Option V
  lookup k [] = none
  lookup k ((j, v) ∷ d) = if text_eq j k then some v else lookup k d

  -- `d.get(k, default)`
  abbrev pub lookup_or : Text → V → Dict V → V
  lookup_or k v [] = v
  lookup_or k v ((j, w) ∷ d) = if text_eq j k then w else lookup_or k v d

  -- `d[k] = v`
  abbrev pub insert : Text → V → Dict V → Dict V
  insert k v [] = (k, v) ∷ []
  insert k v ((j, w) ∷ d) = if text_eq j k then (j, v) ∷ d else (j, w) ∷ insert k v d
