-- ===== src/Tests/Blocking.antt =====
-- A blocked provider.
use community_storage.Base.{◌≡◌, refl, false, true, some, [], ◌∷◌, includes, empty, String_discrete}
use community_storage.Front.Blocklist.{Texts, addresses, set_blocklist, get_blocklist_set, list_of}
use community_storage.Front.Blocklist.Laws.{blocked-unselected}
use community_storage.Front.Store.{auto_selected}
use community_storage.Tests.Storing.{offer_north, offer_south}

abbrev texts : Texts
texts = record { lower = λ s. s; trim = λ s. s; split = λ s. s ∷ [] }

listed : includes (list_of texts (addresses ("south" ∷ []))) "south" ≡ true
unfolding String_discrete
listed = refl

blocked-unselected_example :
    includes
      (auto_selected texts.lower
        (get_blocklist_set texts
          (some "user")
          (set_blocklist texts (some "user") (addresses ("south" ∷ [])) empty).1)
        1
        (offer_north ∷ offer_south ∷ []))
      "south"
    ≡ false
blocked-unselected_example =
    blocked-unselected texts (some "user") (addresses ("south" ∷ [])) empty 1
      (offer_north ∷ offer_south ∷ []) "south" "south" listed refl
