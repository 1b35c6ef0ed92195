-- ===== src/SavedFilters/Tests.antt =====
-- Runs of the handlers of src/app/api/saved-filters.
use planeo.Prelude.{
  String, true, false, some, [], ◌∷◌, In, inl, inr, ◌↔◌, trim, ok, err, ◌≡◌, refl, sym, ap, arith,
  ◌===◌, ===_iff, ◌∙◌,
}
use planeo.Prelude.Json.{Json, bool, str, obj, field, end}
use planeo.AdvancedQuery.Parser.Tests.{ascii, accepted}
use planeo.Queues.Tests.{ada, help}
use planeo.SavedFilters.{
  SavedQuery, normalize_saved_query, FilterDb, SavedFilter, FilterMeans, bad_reference, no_filter,
  taken_name, validate_saved_query,
}
use planeo.SavedFilters.Requests.{
  create_filter, patch_filter, delete_filter, created, patched, start, then_served,
}
use planeo.SavedFilters.Requests.Kept.{IsKept, AllKept, FilterHistory-AllKept}
use planeo.SavedFilters.Requests.Owners.{HasUniqueIds, Served_keeps_others}

abbrev language : String
language = "not Status IN (done, \"in progress\") AND (key = \"A-1\" or text ~ x)"

abbrev means : FilterMeans
means = record {
  maps = ascii;
  to_upper = λ text. text;
  precedes = λ f g. f.owner_id === g.owner_id;
}

abbrev db : FilterDb
db = record {
  projects = help ∷ [];
  issue_types = [];
  statuses = record { id = "done"; project_id = "p" } ∷ [];
  sprints = [];
  request_types = [];
  labels = [];
  members = ("acme", "ada") ∷ [];
}

abbrev wanted : String → String → Json
wanted project status = obj (
    field "name" (str " Mine ") (
      field "shared" (bool false) (
        field "query"
          (obj (
            field "status" (str status)
              (field "project" (str project) (field "query" (str language) end))))
          end)))

abbrev kept_query : SavedQuery
kept_query =
    ("query", language) ∷ ("project", "HELP") ∷ ("status", "done") ∷ ("queryVersion", "1") ∷ []

abbrev bobs : SavedFilter
bobs = record {
  id = "f1";
  workspace_id = "acme";
  owner_id = "bob";
  name = "Mine";
  query = [];
  shared = true;
  updated_at = 1;
}

abbrev adas : SavedFilter
adas = record bobs {
  id = "f2";
  owner_id = "ada";
  query = kept_query;
  shared = false;
  updated_at = 5;
}

normalizes :
    normalize_saved_query ascii (
      obj (
        field "status"
          (str "done")
          (field "project" (str " HELP") (field "query" (str language) end))))
    ≡ some kept_query
unfolding normalize_saved_query trim
normalizes = rw accepted refl

creates :
    create_filter means db "f2" 5 (wanted "HELP" "done") (bobs ∷ []) (some ada)
    ≡ ok (adas ∷ bobs ∷ [])
unfolding create_filter normalize_saved_query validate_saved_query trim
creates = rw accepted refl

refuses_status :
    create_filter means db "f2" 5 (wanted "HELP" "open") (bobs ∷ []) (some ada) ≡ err bad_reference
unfolding create_filter normalize_saved_query validate_saved_query trim
refuses_status = rw accepted refl

refuses_same_name :
    create_filter means db "f3" 6 (wanted "" "done") (adas ∷ bobs ∷ []) (some ada) ≡ err taken_name
unfolding create_filter normalize_saved_query validate_saved_query trim
refuses_same_name = rw accepted refl

shares :
    patch_filter means db "f2" 7
      (obj (field "shared" (bool true) end))
      (adas ∷ bobs ∷ [])
      (some ada)
    ≡ ok (record adas { shared = true; updated_at = 7 } ∷ bobs ∷ [])
unfolding patch_filter
shares = refl

hides_others : delete_filter "f1" (adas ∷ bobs ∷ []) (some ada) ≡ err no_filter
unfolding delete_filter
hides_others = refl

bobs-IsKept : (f : SavedFilter) → In f (bobs ∷ []) → IsKept means f
unfolding trim
bobs-IsKept f (inl same) = rw same (record {
  title = record { trimmed = ("Mine", refl); given = λ e. absurd cc; bounded = omega arith };
  saved = record {
    entries = λ k v m. absurd (elim m [ ]);
    versioned = inl refl;
    parses = inl refl;
  };
})
bobs-IsKept f (inr m) = absurd (elim m [ ])

FilterHistory-AllKept_example :
    AllKept means (record adas { shared = true; updated_at = 7 } ∷ bobs ∷ [])
FilterHistory-AllKept_example =
    FilterHistory-AllKept means (bobs ∷ [])
      (record adas { shared = true; updated_at = 7 } ∷ bobs ∷ [])
      (then_served (adas ∷ bobs ∷ []) ada
        (then_served (bobs ∷ []) ada start (created db "f2" 5 (wanted "HELP" "done") creates))
        (patched db "f2" 7 (obj (field "shared" (bool true) end)) shares))
      bobs-IsKept

apart : ¬ Path String "f2" "f1"
apart e = let same = (===_iff "f2" "f1").1 e in absurd cc

two-HasUniqueIds : HasUniqueIds (adas ∷ bobs ∷ [])
two-HasUniqueIds f g (inl a) (inl b) e = a ∙ sym b
two-HasUniqueIds f g (inl a) (inr (inl b)) e =
    absurd (apart (sym (ap (λ (h : SavedFilter). h.id) a) ∙ e ∙ ap (λ (h : SavedFilter). h.id) b))
two-HasUniqueIds f g (inr (inl a)) (inl b) e =
    absurd
      (apart (sym (ap (λ (h : SavedFilter). h.id) b) ∙ sym e ∙ ap (λ (h : SavedFilter). h.id) a))
two-HasUniqueIds f g (inr (inl a)) (inr (inl b)) e = a ∙ sym b
two-HasUniqueIds f g (inr (inr m)) n e = absurd (elim m [ ])
two-HasUniqueIds f g (inl a) (inr (inr n)) e = absurd (elim n [ ])
two-HasUniqueIds f g (inr (inl a)) (inr (inr n)) e = absurd (elim n [ ])

Served_keeps_others_example :
    In bobs (adas ∷ bobs ∷ []) ↔ In bobs (record adas { shared = true; updated_at = 7 } ∷ bobs ∷ [])
Served_keeps_others_example =
    Served_keeps_others means ada bobs refl (adas ∷ bobs ∷ [])
      (record adas { shared = true; updated_at = 7 } ∷ bobs ∷ []) two-HasUniqueIds
      (patched db "f2" 7 (obj (field "shared" (bool true) end)) shares)
