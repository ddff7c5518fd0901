-- ===== src/Tests/Samples.antt =====
-- A small database, on which the theorems are applied.
use chamneul.Base.{
  ℕ, ◌+◌, ◌≤◌, String, refl, Bool, true, false, none, some, [], ◌∷◌, ◌==◌, string_Eq, Bool-cases,
  inl, inr, subst, count, arith,
}
use chamneul.Models.{Db, Env}
use chamneul.Models.Taxonomy.{ConcernType}
use chamneul.Models.Accounts.{User, UserRole, Role, ActiveRole}
use chamneul.Models.Advisors.{
  AdvisorApplication, AdvisorApplicationStatus, DomainCategory, ExperienceBand, CurrentStatus,
  IntendedLane,
}
use chamneul.Models.Concerns.{
  Concern, Assignment, ConcernStatus, PreferredAdvisorLane, TriageDecision, AssignmentPriority,
  Json, JsonFields,
}
use chamneul.Models.Advice.{Advice, AdviceStatus, Feedback, FeedbackStatus}
use chamneul.Models.Notifications.{Notification, NotificationType, TargetUrl}
use chamneul.Accounts.Roles.Worn.{RolesHold}
use chamneul.Concerns.{AssignmentCreate}
use chamneul.Concerns.Queue.{AreTracked}
use chamneul.Advice.{AdviceCreate, AdvicePatch}
use chamneul.Advice.History.{HistoriesHold}
use chamneul.Advisors.{ApplicationCreate, takes_name}
use chamneul.Advisors.Names.{AreDistinct}

abbrev pub env : Env
env = record { now = 100; uuid = λ i. 1000 + i }

abbrev pub later_env : Env
later_env = record { now = 200; uuid = λ i. 2000 + i }

abbrev pub last_env : Env
last_env = record { now = 300; uuid = λ i. 3000 + i }

abbrev person : ℕ → String → ActiveRole → Bool → User
person id nickname role is_active = record {
  id = id;
  email = nickname;
  nickname = nickname;
  active_role = role;
  is_active = is_active;
  is_staff = false;
  is_superuser = false;
  password = "hash";
  last_login = none;
  job = "";
  interest = "";
  profile_image_url = "";
  created_at = 1;
  updated_at = 1;
}

-- The asker, the advisor, two admins, and an admin whose account is deactivated.
abbrev pub asker : User
asker = person 1 "asker" ActiveRole.user true

abbrev pub advisor : User
advisor = person 2 "advisor" ActiveRole.advisor true

abbrev pub dormant : User
dormant = person 5 "dormant" ActiveRole.user false

abbrev role_row : ℕ → ℕ → Role → UserRole
role_row id user role = record { id = id; user = user; role = role; created_at = 1 }

abbrev pub concern : ℕ → ConcernStatus → Concern
concern id status = record {
  id = id;
  author = 1;
  concern_summary = "이직";
  concern_type = ConcernType.job_change;
  concern_type_secondary = [];
  preferred_advisor_lane = PreferredAdvisorLane.no_preference;
  decision_context = "";
  display_alias = "";
  is_anonymous = true;
  status = status;
  deleted_at = none;
  created_at = 10;
  updated_at = 10;
}

abbrev pub taken_concern : Concern
taken_concern = concern 10 ConcernStatus.assigned

abbrev pub fresh_concern : Concern
fresh_concern = concern 11 ConcernStatus.submitted

abbrev pub assignment : Assignment
assignment = record {
  id = 20;
  concern = 10;
  advisor = 2;
  assigned_by = 3;
  triage_decision = TriageDecision.suitable;
  match_rationale = Json.object JsonFields.end;
  priority = AssignmentPriority.normal;
  is_active = true;
  assigned_at = 11;
  deactivated_at = none;
}

abbrev advice_row : ℕ → ℕ → AdviceStatus → Advice
advice_row id advisor status = record {
  id = id;
  concern = 10;
  advisor = advisor;
  directional_guidance = "천천히";
  reflective_questions = "";
  considerations = "";
  out_of_scope_flag = false;
  is_submitted = true;
  status = status;
  version = 1;
  created_at = 12;
  updated_at = 12;
  reviewed_at = none;
  reviewed_by = none;
  reject_reason = "";
}

abbrev pub advice : Advice
advice = advice_row 30 2 AdviceStatus.pending

abbrev pub approved_advice : Advice
approved_advice = advice_row 31 6 AdviceStatus.approved

abbrev pub feedback : Feedback
feedback = record {
  id = 40;
  advice = 32;
  author = 1;
  score = 5;
  content = "";
  status = FeedbackStatus.submitted;
  memo = "";
  reviewed_at = none;
  reviewed_by = none;
  created_at = 13;
}

abbrev pub application : AdvisorApplication
application = record {
  id = 50;
  applicant = 1;
  display_name = "길잡이";
  domain_category = DomainCategory.it_data;
  experience_band = ExperienceBand.band_5_7;
  current_status = CurrentStatus.employed;
  intended_lane = IntendedLane.senior;
  career_narrative = "";
  advisable_concern_types = [];
  sample_advice_response = "";
  status = AdvisorApplicationStatus.pending;
  submitted_at = 9;
  reviewed_at = none;
  reviewed_by = none;
  reject_reason = "";
}

-- Taken up by an admin.
abbrev pub reviewing_application : AdvisorApplication
reviewing_application = record application {
  id = 51;
  applicant = 3;
  display_name = "나침반";
  status = AdvisorApplicationStatus.reviewing;
}

abbrev pub notice : Notification
notice = record {
  id = 60;
  recipient = 1;
  kind = NotificationType.advice_approved;
  title = "";
  message = "";
  target_url = TargetUrl.advice 31;
  actor_user = none;
  payload = [];
  is_read = false;
  read_at = none;
  created_at = 14;
}

abbrev pub db : Db
db = record {
  users =
      asker
      ∷ advisor
      ∷ person 3 "first" ActiveRole.user true
      ∷ person 4 "second" ActiveRole.user true
      ∷ dormant
      ∷ [];
  user_roles =
      role_row 1 2 Role.advisor
      ∷ role_row 2 3 Role.admin
      ∷ role_row 3 4 Role.admin
      ∷ role_row 4 5 Role.admin
      ∷ [];
  role_grants = [];
  google_identities = [];
  sessions =
      record { session_key = 70; auth_user = some 1; expire_date = 500 }
      ∷ record { session_key = 71; auth_user = some 2; expire_date = 500 }
      ∷ [];
  applications = application ∷ reviewing_application ∷ [];
  concerns = taken_concern ∷ fresh_concern ∷ [];
  assignments = assignment ∷ [];
  advices = advice ∷ approved_advice ∷ [];
  advice_histories = [];
  feedbacks = feedback ∷ [];
  notifications = notice ∷ [];
}

pub db-RolesHold : RolesHold db
db-RolesHold = record {
  user_keys = λ k. ground arith;
  role_unique = λ u r. ground arith;
  user_unstored = refl;
  worn = ground arith;
}

pub db-AreTracked : AreTracked db
db-AreTracked = record {
  concern_keys = λ k. ground arith;
  assignment_keys = λ k. ground arith;
  unique_active = λ c a. ground arith;
  queued = ground arith;
}

pub db-HistoriesHold : HistoriesHold db
db-HistoriesHold = record {
  advice_keys = λ k. ground arith;
  unique_live = λ c a. ground arith;
  versioned = ((omega arith, λ v. ground arith), ((omega arith, λ v. ground arith), tt));
}

pub db-AreDistinct : AreDistinct db.applications
db-AreDistinct = record {
  keys = λ k. ground arith;
  names = λ s. elim (Bool-cases ("길잡이" == s)) [
    | inl same ↦
        subst (λ t. count (takes_name t) db.applications ≤ 1) ((string_Eq.same_iff "길잡이" s).0 same)
          (omega arith)
    | inr other ↦ ground arith
  ];
  applicants = λ u. ground arith;
}

abbrev pub assignment_create : AssignmentCreate
assignment_create = record {
  advisor_user_id = 2;
  triage_decision = TriageDecision.suitable;
  match_rationale = none;
  priority = AssignmentPriority.high;
}

abbrev pub advice_create : AdviceCreate
advice_create = record {
  directional_guidance = "쉬어가기";
  reflective_questions = none;
  considerations = none;
  out_of_scope_flag = none;
  submit = true;
}

abbrev pub advice_patch : AdvicePatch
advice_patch = record {
  directional_guidance = some "서두르지 않기";
  reflective_questions = none;
  considerations = none;
  out_of_scope_flag = none;
  is_submitted = none;
}

abbrev pub application_create : ApplicationCreate
application_create = record {
  display_name = "등대";
  domain_category = DomainCategory.medical;
  experience_band = ExperienceBand.band_5_7;
  current_status = CurrentStatus.retired;
  intended_lane = IntendedLane.expert;
  career_narrative = "";
  advisable_concern_types = [];
  sample_advice_response = "";
}
