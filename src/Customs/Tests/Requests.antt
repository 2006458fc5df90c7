-- ===== src/Customs/Tests/Requests.antt =====
-- Whole requests.
use fxa_local_dev.Prelude.{String, List, ◌≡◌, refl, true, false, none, some, [], ◌∷◌, arith}
use fxa_local_dev.Customs.IpRecord
use fxa_local_dev.Customs.IpRecord.{IpRecord}
use fxa_local_dev.Customs.EmailRecord
use fxa_local_dev.Customs.EmailRecord.{EmailRecord}
use fxa_local_dev.Customs.EmailRecord.Verdict.{is_counted}
use fxa_local_dev.Customs.UidRecord
use fxa_local_dev.Customs.Window.Trim.{recent}
use fxa_local_dev.Customs.RuleRecord.{Rule}
use fxa_local_dev.Customs.Rules.{RuleMap, names, number, compute_user_defined_rules}
use fxa_local_dev.Customs.Server.{Env, found, checked, write_ip, write_email, fetch_ip, fetch_email}
use fxa_local_dev.Customs.Server.Check.{check}
use fxa_local_dev.Customs.Server.Events.{block_ip, block_email, handle_ban, ban_ip, ban_email}
use fxa_local_dev.Customs.Server.CheckAuthenticated.{check_authenticated}
use fxa_local_dev.Customs.Server.Passes.{advises_block, check_passes}
use fxa_local_dev.Customs.Server.FailClosed.{check-fails_closed}
use fxa_local_dev.Customs.Server.RuleClash.{clash_blocks}
use fxa_local_dev.Customs.Server.Ban.{ban_holds, stored_ip, stored_email}
use fxa_local_dev.Customs.Server.EmailBan.{email_ban_holds}
use fxa_local_dev.Customs.Server.CheckIpOnly.{
  check_ip_only, check_record, update_record, respond_to,
}
use fxa_local_dev.Customs.Server.IpOnly.{check_ip_only-fails_closed, check_ip_only_passes}
use fxa_local_dev.Customs.Server.Logins.{bad_logins_blocked}
use fxa_local_dev.Customs.Server.UidChecks.{check_authenticated_exact}
use fxa_local_dev.Customs.Tests.Samples.{env, limits, empty_cache, request, run_check}

first_create : (check env [] request).response ≡ checked false 0 (some true) (some false)
unfolding run_check
first_create = refl

check_passes_example :
    EmailRecord.should_block env.limits env.now
      (EmailRecord.update env.limits env.now "accountCreate" false (fetch_email env "a@b.c")).0
    ≡ false
unfolding run_check is_counted
check_passes_example =
    (check_passes env [] request refl refl refl refl (omega arith) (omega arith) (omega arith)
      (omega arith)).0

-- memcached takes nothing.
abbrev refusing : Env
refusing = record env { mc = record empty_cache { set_succeeds = λ w. false } }

check-fails_closed_example :
    (check refusing [] request).response ≡ checked true 900 (some false) none
unfolding run_check
check-fails_closed_example = check-fails_closed refusing [] request refl

abbrev a_rule : List String → Rule
a_rule actions = record {
  limits = record { max = 2; period_ms = 1000; rate_limit_interval_ms = 1000 };
  actions = actions;
}

-- The second and the third of the rules name the action.
abbrev clashing : List (String × Rule)
clashing =
    ("other", a_rule ("accountLogin" ∷ []))
    ∷ ("slow", a_rule ("passwordChange" ∷ "accountCreate" ∷ []))
    ∷ ("fast", a_rule ("accountCreate" ∷ []))
    ∷ []

abbrev clashed : RuleMap
clashed =
    ("accountLogin", names ("other" ∷ []))
    ∷ ("passwordChange", names ("slow" ∷ []))
    ∷ ("accountCreate", number 2)
    ∷ []

clash_blocks_example : (check env clashed request).response ≡ checked true 900 (some false) none
unfolding run_check compute_user_defined_rules
clash_blocks_example = clash_blocks env request clashing clashed refl (omega arith) refl

-- The address is banned at `env.now`, and asks ten minutes later.
banned_ip : IpRecord
banned_ip = IpRecord.block limits 1_000_000_000 (IpRecord.parse none)

abbrev after_ban : Env
after_ban = record env {
  now = 1_000_600_000;
  mc = record empty_cache { get_ip = λ key. found (stored_ip banned_ip) };
}

ban_holds_example : (check after_ban [] request).writes ≡ []
unfolding run_check block_ip handle_ban ban_ip write_ip banned_ip IpRecord.get_min_lifetime_ms
ban_holds_example =
    (ban_holds env after_ban [] request banned_ip 86_400_000 refl refl (omega arith) (omega arith)
      refl refl).0

banned_email : EmailRecord
banned_email = EmailRecord.block limits 1_000_000_000 (EmailRecord.parse none)

abbrev after_email_ban : Env
after_email_ban = record env {
  now = 1_000_600_000;
  mc = record empty_cache { get_email = λ key. found (stored_email banned_email) };
}

email_ban_holds_example : advises_block (check after_email_ban [] request).response ≡ true
unfolding run_check block_email handle_ban ban_email write_email banned_email
    EmailRecord.get_min_lifetime_ms
email_ban_holds_example =
    email_ban_holds env after_email_ban [] request banned_email 86_400_000 refl refl (omega arith)
      (omega arith) refl refl refl

-- Two checks were let through within the interval; the third is not.
abbrev third_check : Env
third_check = record env {
  mc = record empty_cache {
    get_uid = λ key. found (record {
      timestamps_by_action = some (("devicesNotify", 999_999_000 ∷ 999_999_500 ∷ []) ∷ []);
      rate_limited_timestamp = none;
    });
  };
}

check_authenticated_exact_example :
    (check_authenticated third_check "devicesNotify" "192.0.2.1" "uid").response
    ≡ checked true 900_000 none none
unfolding run_check UidRecord.parse UidRecord.is_rate_limited UidRecord.lookup recent
check_authenticated_exact_example =
    check_authenticated_exact third_check "devicesNotify" "192.0.2.1" "uid" refl refl (omega arith)
      (omega arith)

check_ip_only-fails_closed_example :
    (check_ip_only refusing "192.0.2.1" "accountStatusCheck").response ≡ checked true 900 none none
unfolding run_check check_ip_only check_record update_record respond_to
check_ip_only-fails_closed_example =
    check_ip_only-fails_closed refusing "192.0.2.1" "accountStatusCheck" refl

check_ip_only_passes_example :
    IpRecord.should_block env.limits env.now
      (IpRecord.update env.limits env.now "accountStatusCheck" "" (fetch_ip env "192.0.2.1")).0
    ≡ false
unfolding run_check check_ip_only check_record update_record respond_to
check_ip_only_passes_example =
    (check_ip_only_passes env "192.0.2.1" "accountStatusCheck" refl refl refl (omega arith)
      (omega arith)).0

-- Three logins failed within the interval.
abbrev failing : Env
failing = record env {
  mc = record empty_cache {
    get_ip_email = λ key.
        found (record { rl = none; lf = some (999_970_000 ∷ 999_980_000 ∷ 999_990_000 ∷ []) });
  };
}

bad_logins_blocked_example :
    advises_block (check failing [] (record request { action = "accountLogin" })).response ≡ true
unfolding run_check recent
bad_logins_blocked_example =
    bad_logins_blocked failing [] (record request { action = "accountLogin" }) refl refl refl refl
      refl (omega arith) (omega arith)
      ((omega arith, (omega arith, tt)), ((omega arith, tt), (tt, tt))) (omega arith)
