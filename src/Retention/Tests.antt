-- ===== src/Retention/Tests.antt =====
-- Runs of src/lib/retention.ts.
use planeo.Prelude.{String, true, false, none, some, [], ◌∷◌, List, err, inl, ◌⊎◌, ◌≡◌, refl, In}
use planeo.Retention.{
  RetentionClass, issues, comments, attachments, RetainedRow, user, LegalHold, approved,
  DeletionJob, Archive, Means, discover_retention, preview_deletion, execute_deletion,
  storage_failed,
}
use planeo.Retention.Holds.{MayGo, execute_deletion-MayGo}

abbrev means : Means
means = record {
  precedes = λ a b. true;
  preview_digest = λ organization class cutoff ids. "digest";
  evidence_digest = λ evidence. "evidence";
  deletes_object = λ key. false;
  in_sequence = λ rows. rows;
}

abbrev row : String → String → String → RetainedRow
row id issue_id user_id = record {
  id = id;
  organization_id = "o";
  workspace_id = "acme";
  project_id = some "p";
  issue_id = some issue_id;
  user_id = some user_id;
  stamped_at = some 10;
  issue_archived = true;
  about_issue = false;
  object_key = "key";
  sequence = 0;
  event_hash = "";
}

-- Bob's rows are held.
abbrev hold : LegalHold
hold = record {
  organization_id = "o";
  scope = user "bob";
  starts_at = 0;
  ends_at = none;
  released_at = none;
}

-- Ada's issue, and two comments on it.
abbrev rows : RetentionClass → List RetainedRow
rows issues = row "i1" "i1" "ada" ∷ []
rows comments = row "c1" "i1" "ada" ∷ row "c2" "i1" "bob" ∷ []
rows attachments = row "a1" "i1" "ada" ∷ []
rows _ = []

abbrev job : RetentionClass → List String → DeletionJob
job class ids = record {
  id = "j";
  organization_id = "o";
  class = class;
  cutoff = 50;
  status = approved;
  candidate_ids = ids;
  preview_hash = "digest";
  approved_at = some 60;
  attempts = 0;
  evidence = none;
}

abbrev archive : RetentionClass → List String → Archive
archive class ids = record {
  rows = rows;
  holds = hold ∷ [];
  anchors = [];
  jobs = job class ids ∷ [];
}

held_comment :
    (execute_deletion means 100 "j" (archive comments ("c1" ∷ "c2" ∷ []))).0.rows comments
    ≡ row "c2" "i1" "bob" ∷ []
unfolding execute_deletion discover_retention
held_comment = refl

-- The deletion of the issue takes the comment that is held with it.
held_with_issue : (execute_deletion means 100 "j" (archive issues ("i1" ∷ []))).0.rows comments ≡ []
unfolding execute_deletion discover_retention
held_with_issue = refl

storage_down :
    (execute_deletion means 100 "j" (archive attachments ("a1" ∷ []))).1 ≡ err storage_failed
unfolding execute_deletion discover_retention
storage_down = refl

previewed_ids :
    (preview_deletion means "j" "o" comments 50 100 (archive comments [])).1.candidate_ids
    ≡ "c1" ∷ []
unfolding preview_deletion discover_retention
previewed_ids = refl

execute_deletion-MayGo_example :
    In
      (row "c1" "i1" "ada")
      ((execute_deletion means 100 "j" (archive comments ("c1" ∷ []))).0.rows comments)
    ⊎ MayGo 100 (archive comments ("c1" ∷ [])) (job comments ("c1" ∷ [])) (row "c1" "i1" "ada")
execute_deletion-MayGo_example =
    execute_deletion-MayGo means 100 "j" (archive comments ("c1" ∷ [])) (job comments ("c1" ∷ []))
      (row "c1" "i1" "ada") refl (inl refl)
