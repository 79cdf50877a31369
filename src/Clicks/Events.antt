-- ===== src/Clicks/Events.antt =====
-- modules/clicks/click-processor.service.ts: the events, the dead letters and the grouping of a batch.
use dist_link.Base.{
  ℕ, ◌+◌, String, Bool, true, false, ◌&&◌, Option, none, some, List, [], ◌∷◌, ◌==◌, eqb,
  if◌then◌else◌,
}
use dist_link.Base.Dict.{Dict, get, put, or_else}
use dist_link.Urls.Types.{Stamp}

-- `ClickEvent` and `AnalyticsEvent`; `M` is the type of `metadata`.
pub record Event (M : Type 0) : Type 0 where
  pub short_code : String
  pub timestamp : Stamp
  pub metadata : M

pub data Kind : Type 0 where
  click analytics : Kind

-- The key of a dead letter, `${kind}:${shortCode}:${time}`, by its parts: neither the kind nor the
-- time holds a colon, so the text determines them.
pub record Key : Type 0 where
  pub kind : Kind
  pub short_code : String
  pub time : ℕ

abbrev pub same_kind : Kind → Kind → Bool
same_kind click click = true
same_kind analytics analytics = true
same_kind _ _ = false

abbrev pub same_key : Key → Key → Bool
same_key a b = same_kind a.kind b.kind && (a.short_code == b.short_code && eqb a.time b.time)

pub record Letter (M : Type 0) : Type 0 where
  pub event : Event M
  pub failures : ℕ

abbrev pub Letters : Type 0 → Type 0
Letters M = List (Key × Letter M)

module _ {M : Type 0} where
  -- `deadLetterQueue.get` and `set`
  unfoldable pub find_letter : Letters M → Key → Option (Letter M)
  find_letter [] k = none
  find_letter ((j, l) ∷ ls) k = if same_key j k then some l else find_letter ls k

  unfoldable pub set_letter : Letters M → Key → Letter M → Letters M
  set_letter [] k l = (k, l) ∷ []
  set_letter ((j, m) ∷ ls) k l =
      let rest = set_letter ls k l in if same_key j k then (j, l) ∷ ls else (j, m) ∷ rest

  abbrev pub again : Event M → Option (Letter M) → Letter M
  again event none = record { event = event; failures = 1 }
  again event (some l) = record l { failures = l.failures + 1 }

  -- One round of the `forEach` that builds `clickCounts`.
  abbrev pub count_one : Dict ℕ → Event M → Dict ℕ
  count_one counts e = put counts e.short_code (or_else (get counts e.short_code) 0 + 1)

  unfoldable pub click_counts : Dict ℕ → List (Event M) → Dict ℕ
  click_counts counts [] = counts
  click_counts counts (e ∷ batch) = click_counts (count_one counts e) batch
