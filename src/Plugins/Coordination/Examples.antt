-- ===== src/Plugins/Coordination/Examples.antt =====
-- The coordination detector at concrete inputs.
use osint_platform_core.Base.{
  ℕ, suc, String, true, not, some, List, [], ◌∷◌, length, if◌then◌else◌, ◌==◌, ◌≡◌, refl, is_nil,
}
use osint_platform_core.Base.Http.{ok}
use osint_platform_core.Plugins.Coordination.{
  Post, timestamps_of, parse_timestamps, find_simultaneous, Detection, detect,
}
use osint_platform_core.Plugins.Coordination.Windows.{has_near_pair, find_simultaneous-near}

abbrev post : (account : String) → ℕ → Post
post account t = record {
  text = "Buy now";
  account = account;
  hashtags = "sale" ∷ [];
  timestamp = some (record { micros = t; is_aware = true });
}

abbrev posts : List Post
posts = post "ann" 500000000 ∷ post "bob" 100000000 ∷ post "ann" 530000000 ∷ []

abbrev shown : ℕ → String
shown t = if t == 500000000 then "500" else "530"

abbrev found : Detection
found = record {
  coordination_score = 10000;
  patterns = "simultaneous_posting" ∷ "identical_text" ∷ "shared_hashtags" ∷ [];
  simultaneous_groups = ("500" ∷ "530" ∷ []) ∷ [];
  duplicate_text_count = 1;
  shared_hashtags = ("sale", "ann" ∷ "bob" ∷ []) ∷ [];
}

detected : detect shown 4 posts ≡ ok (some found)
unfolding detect
detected = refl

find_simultaneous-near_example :
    (timestamps : List ℕ) × (groups : List (List String)) × (parse_timestamps posts ≡ ok timestamps)
    × (find_simultaneous shown (suc (length (timestamps_of posts))) timestamps ≡ some groups)
    × (is_nil groups ≡ not (has_near_pair (timestamps_of posts)))
find_simultaneous-near_example = find_simultaneous-near shown posts refl
