-- ===== src/Plugins/Sort/Tests.antt =====
-- Plugins to run the sort on.
use cordyceps.Common.{◌⊎◌, ◌<◌, false, length, String, ◌≡◌, refl, inl, inr, true, List, [], ◌∷◌}
use cordyceps.Common.Int.{pos}
use cordyceps.Common.Map.{includes}
use cordyceps.Plugins.Sort.{Plugin, name_set, order_names, sort_plugins}
use cordyceps.Plugins.Sort.Waits.{Uniq}
use cordyceps.Plugins.Sort.Wanted.{wanted}
use cordyceps.Plugins.Sort.Count.{comes_before}
use cordyceps.Plugins.Sort.Result.{order_names-wanted, order_names-Uniq, order_names-missing}

abbrev audit : Plugin
audit = record { ref = 0; name = "audit"; priority = pos 0; after = "council" ∷ []; before = [] }

abbrev council : Plugin
council = record { ref = 1; name = "council"; priority = pos 0; after = "none" ∷ []; before = [] }

abbrev peer : Plugin
peer = record { ref = 2; name = "peer"; priority = pos 0; after = []; before = "council" ∷ [] }

abbrev three : List Plugin
three = audit ∷ council ∷ peer ∷ []

abbrev circular : Plugin
circular = record {
  ref = 3;
  name = "x";
  priority = pos 0;
  after = "audit" ∷ [];
  before = "audit" ∷ [];
}

three_order : order_names three three ≡ inl ("peer" ∷ "council" ∷ "audit" ∷ [])
unfolding order_names
three_order = refl

circular_order :
    order_names (audit ∷ circular ∷ peer ∷ []) (audit ∷ circular ∷ peer ∷ [])
    ≡ inr ("audit" ∷ "x" ∷ [])
unfolding order_names
circular_order = refl

-- Two plugins of one name: an error that names nobody.
twice_order : order_names (peer ∷ peer ∷ []) (peer ∷ peer ∷ []) ≡ inr []
unfolding order_names
twice_order = refl

order_names-wanted_example :
    comes_before "council" "audit" ("peer" ∷ "council" ∷ "audit" ∷ []) ≡ true
unfolding cordyceps.Plugins.Sort.add_names
order_names-wanted_example =
    order_names-wanted three three ("peer" ∷ "council" ∷ "audit" ∷ []) "council" "audit" three_order
      refl

abbrev three_names : List String
three_names = "peer" ∷ "council" ∷ "audit" ∷ []

order_names-Uniq_example :
    Uniq three_names
    × (length three_names ≡ 3)
    × ((n : String) → includes n three_names ≡ includes n (name_set three))
order_names-Uniq_example = order_names-Uniq three three three_names three_order

order_names-missing_example :
    (0 < 2)
    × ((includes "x" ("audit" ∷ "x" ∷ []) ≡ false)
        ⊎ ((a : String) × (includes a ("audit" ∷ "x" ∷ []) ≡ true)
            × (wanted
                  (name_set (audit ∷ circular ∷ peer ∷ []))
                  (audit ∷ circular ∷ peer ∷ [])
                  (audit ∷ circular ∷ peer ∷ [])
                  a
                  "x"
                ≡ true)))
unfolding cordyceps.Plugins.Sort.add_names
order_names-missing_example =
    order_names-missing (audit ∷ circular ∷ peer ∷ []) (audit ∷ circular ∷ peer ∷ [])
      ("audit" ∷ "x" ∷ []) "x" refl circular_order
