-- ===== src/Examples/Quarantines.antt =====
-- The quarantine of src/store.rs, on the sample records: one id listed twice, one not there.
use codex_memoryd.Prelude.{◌≡◌, some, none, true, List, [], ◌∷◌, String, All}
use codex_memoryd.Store.Records.{quarantine_records}
use codex_memoryd.Store.Records.Quarantine.{Held, missing, quarantine_records_lem}
use codex_memoryd.Store.Records.Recalled.{Withheld, quarantine_withholds}
use codex_memoryd.Examples.Recalls.{samples, params_of}

abbrev listed : List String
listed = "m2" ∷ "m9" ∷ "m2" ∷ []

quarantine_records_example :
    let o = quarantine_records "personal" (some "w1") "wrong" "2025-04-01" listed samples in
    Held "personal" (some "w1") "wrong" "2025-04-01" listed o.rows
    × (o.not_found ≡ missing "personal" (some "w1") "wrong" "2025-04-01" samples listed)
quarantine_records_example =
    quarantine_records_lem "personal" (some "w1") "wrong" "2025-04-01" listed samples

quarantine_withholds_example :
    All
      (Withheld "personal"
        (some "w1")
        "wrong"
        "2025-04-01"
        (params_of none true)
        "2025-06-01"
        listed)
      (quarantine_records "personal" (some "w1") "wrong" "2025-04-01" listed samples).rows
quarantine_withholds_example =
    quarantine_withholds "personal" (some "w1") "wrong" "2025-04-01" (params_of none true)
      "2025-06-01" listed samples
