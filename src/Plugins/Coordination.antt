-- ===== src/Plugins/Coordination.antt =====
-- backend/plugins/modules/misinformation/detectors/coordination_detector.py: the signs that posts are
-- coordinated. A post comes with what the detector reads from it: the stripped text, the account, and
-- the timestamp if there is one that can be read.
pub mod Windows
mod Examples
use osint_platform_core.Base.{
  ℕ, zero, suc, ◌+◌, ◌-◌, ◌*◌, ◌/◌, String, Bool, true, false, not, Option, none, some, List, [],
  ◌∷◌, ◌++◌, leb, ltb, str_in, keep, map, length, if◌then◌else◌, is_nil, any, ◌&&◌,
}
use osint_platform_core.Base.Http.{Outcome, ok, http_exception, unhandled}
use osint_platform_core.Base.Sort.{sort_by}
use osint_platform_core.Base.Text.{is_empty}
use osint_platform_core.Base.Json.{Dictionary, lookup, insert}

-- `_TIME_WINDOW_SECONDS`, in microseconds
abbrev pub time_window : ℕ
time_window = 60000000

-- A `datetime`: its microseconds, and whether it has a time zone.
pub record Timestamp : Type 0 where
  pub micros : ℕ
  pub is_aware : Bool

pub record Post : Type 0 where
  pub text : String
  pub account : String
  pub hashtags : List String
  pub timestamp : Option Timestamp

unfoldable pub timestamps_of : List Post → List ℕ
timestamps_of [] = []
timestamps_of (p ∷ ps) =
    let rest = timestamps_of ps in elim p.timestamp [ none ↦ rest | some t ↦ t.micros ∷ rest ]

abbrev is_of_kind : (aware : Bool) → Option Timestamp → Bool
is_of_kind aware none = false
is_of_kind aware (some t) = if aware then t.is_aware else not t.is_aware

abbrev pub is_mixed : List Post → Bool
is_mixed posts =
    any (λ p. is_of_kind true p.timestamp) posts && any (λ p. is_of_kind false p.timestamp) posts

-- `sorted` compares naive with aware times where there are both, and raises.
unfoldable pub parse_timestamps : List Post → Outcome (List ℕ)
unfolding timestamps_of sort_by
parse_timestamps posts =
    if is_mixed posts then unhandled "TypeError" else ok (sort_by (λ t. t) (timestamps_of posts))

-- The inner loop: the timestamps near the first one, and those from the next on.
unfoldable pub take_group : (first : ℕ) → List ℕ → List ℕ × List ℕ
take_group first [] = ([], [])
take_group first (t ∷ ts) =
    let (members, remaining) = take_group first ts in
    if leb (t - first) time_window then (t ∷ members, remaining) else ([], t ∷ ts)

module _ (isoformat : ℕ → String) where
  -- The outer loop over what is left of the list; none is that the fuel ran out.
  unfoldable pub group_loop : (fuel : ℕ) → List ℕ → List (List String) → Option (List (List String))
  unfolding take_group
  group_loop zero ts groups = none
  group_loop (suc fuel) [] groups = some groups
  group_loop (suc fuel) (t ∷ ts) groups =
      let (members, remaining) = take_group t ts in
      group_loop fuel remaining
        (if is_nil members then groups else groups ++ map isoformat (t ∷ members) ∷ [])

  unfoldable pub find_simultaneous : (fuel : ℕ) → List ℕ → Option (List (List String))
  unfolding group_loop
  find_simultaneous fuel timestamps = group_loop fuel timestamps []

abbrev or_nil {ℓ} : {A : Type ℓ} → Option (List A) → List A
or_nil none = []
or_nil (some xs) = xs

-- `text_map`: the indices of the posts with a text, from the index that is given.
unfoldable pub text_map : (i : ℕ) → List Post → Dictionary (List ℕ) → Dictionary (List ℕ)
unfolding lookup insert
text_map i [] m = m
text_map i (p ∷ ps) m =
    text_map (i + 1) ps
      (if is_empty p.text then m else insert p.text (or_nil (lookup p.text m) ++ i ∷ []) m)

unfoldable pub several {ℓ} : {A : Type ℓ} → Dictionary (List A) → Dictionary (List A)
several m = keep (λ kv. ltb 1 (length kv.1)) m

abbrev add_account : String → List String → List String
add_account account accounts =
    if str_in account accounts then accounts else accounts ++ account ∷ []

unfoldable pub add_tags :
    (account : String) → List String → Dictionary (List String) → Dictionary (List String)
unfolding lookup insert
add_tags account [] m = m
add_tags account (tag ∷ tags) m =
    add_tags account tags (insert tag (add_account account (or_nil (lookup tag m))) m)

unfoldable pub hashtag_accounts : List Post → Dictionary (List String) → Dictionary (List String)
unfolding add_tags
hashtag_accounts [] m = m
hashtag_accounts (p ∷ ps) m = hashtag_accounts ps (add_tags p.account p.hashtags m)

-- The score counts ten-thousandths, rounded.
pub record Detection : Type 0 where
  pub coordination_score : ℕ
  pub patterns : List String
  pub simultaneous_groups : List (List String)
  pub duplicate_text_count : ℕ
  pub shared_hashtags : Dictionary (List String)

abbrev sign : Bool → String → List String
sign absent pattern_name = if absent then [] else pattern_name ∷ []

unfoldable pub summary :
    (groups : List (List String))
    → (duplicate_texts : Dictionary (List ℕ)) → (shared : Dictionary (List String)) → Detection
summary groups duplicate_texts shared =
    let patterns =
      sign (is_nil groups) "simultaneous_posting"
      ++ (sign (is_nil duplicate_texts) "identical_text"
          ++ sign (is_nil shared) "shared_hashtags") in
    record {
      coordination_score = (10000 * length patterns + 1) / 3;
      patterns = patterns;
      simultaneous_groups = groups;
      duplicate_text_count = length duplicate_texts;
      shared_hashtags = shared;
    }

abbrev with_groups : List Post → Option (List (List String)) → Option Detection
with_groups posts none = none
with_groups posts (some groups) =
    some (summary groups (several (text_map 0 posts [])) (several (hashtag_accounts posts [])))

-- none is that the fuel ran out.
abbrev detected_in :
    (isoformat : ℕ → String)
    → (fuel : ℕ) → List Post
    → Outcome (List ℕ)
    → Outcome (Option Detection)
detected_in isoformat fuel posts (ok timestamps) =
    ok (with_groups posts (find_simultaneous isoformat fuel timestamps))
detected_in isoformat fuel posts (http_exception code detail) = http_exception code detail
detected_in isoformat fuel posts (unhandled error) = unhandled error

-- For no posts the summary is that of no signs.
unfoldable pub detect :
    (isoformat : ℕ → String) → (fuel : ℕ) → List Post → Outcome (Option Detection)
unfolding summary find_simultaneous parse_timestamps several text_map hashtag_accounts
detect isoformat fuel posts =
    if is_nil posts
    then ok (some (summary [] [] []))
    else detected_in isoformat fuel posts (parse_timestamps posts)
