-- ===== src/Controller/Config/Loading.antt =====
-- internal/controller/config.go: what a file that loads has passed.
use toggle_web_baker.Common.{
  String, Bool, true, false, not, ◌&&◌, ◌≡◌, refl, ap, ◌∙◌, sym, subst, Option, none, some, List,
  [], ◌∷◌, str_eq, is_some, Map, codes, Result, ok, err, ◌>>◌, >>=-eq-ok, ok-injective, All,
}
use toggle_web_baker.Common.Int.{ℤ, pos, ltb_ℤ, ◌≤ℤ◌}
use toggle_web_baker.Domain.NodeImage.{NodeImage}
use toggle_web_baker.Controller.Messages.{parse_int}
use toggle_web_baker.Controller.Credential.{GitAuth}
use toggle_web_baker.Controller.Config.File.{
  PhaseResourceDefaults, OperatorConfig, ManagerOptions, FileConfig, ConfigError, not_numeric,
  empty_image, no_uid, root_uid, secret_without_hosts, hosts_without_secret, no_cluster_cidrs,
  bad_cidr, no_traefik_group,
}
use toggle_web_baker.Controller.Config.{
  reject, defaults, validate_node_image, validate_node_images, given, check_git_auth, config_of,
  file_checks, check_numbers, validate_default_setup_commands, manager_options, metadata_ip,
}
use toggle_web_baker.Controller.Config.Load.{
  validate_cidrs, validate, load_interval, load_triggers, load_resources, validated, load_config,
  finish, from_resources, from_triggers, from_interval,
}
use toggle_web_baker.Controller.Config.Soundness.{
  then-ok, reject-ok, InBounds, defaults-InBounds, check_numbers-NumbersSound, at_least,
}

by_parts :
    (fc : FileConfig)
    → file_checks fc ≡ ok tt
    → (check_numbers fc
        >> (check_git_auth fc.git_auth
            >> validate_default_setup_commands fc.default_setup_commands))
      ≡ ok tt
unfolding file_checks
by_parts fc h = h

git_auth_kept :
    {Q : Type 0} (fc : FileConfig) (interval : ℤ) (triggers : String × String)
    (resources : PhaseResourceDefaults Q)
    → (defaults (config_of fc interval triggers resources)).git_auth ≡ fc.git_auth
unfolding defaults config_of
git_auth_kept fc interval triggers resources = refl

-- A node image that a pod can run without being root.
abbrev pub NodeSound : String × NodeImage → Type 0
NodeSound e =
    (is_some (parse_int (codes e.0)) ≡ true)
    × (str_eq e.1.image "" ≡ false)
    × ((uid : ℤ) × (e.1.run_as_user ≡ some uid) × (pos 1 ≤ℤ uid))

not-false : (b : Bool) → not b ≡ false → b ≡ true
not-false true h = refl
not-false false h = cc

uid-checked :
    (major : String) (o : Option ℤ)
    → (elim o [
      | none ↦ err (no_uid major)
      | some uid ↦ reject (ltb_ℤ uid (pos 1)) (root_uid major uid)
    ])
      ≡ ok tt
    → (uid : ℤ) × (o ≡ some uid) × (pos 1 ≤ℤ uid)
uid-checked major none h = cc
uid-checked major (some uid) h =
    (uid, refl, at_least (pos 1) uid (reject-ok (ltb_ℤ uid (pos 1)) (root_uid major uid) h))

validate_node_image-NodeSound :
    (major : String) (ni : NodeImage) → validate_node_image major ni ≡ ok tt → NodeSound (major, ni)
unfolding validate_node_image
validate_node_image-NodeSound major ni h =
    let uid_check : Result ConfigError (Unit {0}) = elim ni.run_as_user [
      | none ↦ err (no_uid major)
      | some uid ↦ reject (ltb_ℤ uid (pos 1)) (root_uid major uid)
    ] in
    let numeric = not (is_some (parse_int (codes major))) in
    let blank = str_eq ni.image "" in
    let (a, rest) =
      then-ok (reject numeric (not_numeric major)) (reject blank (empty_image major) >> uid_check)
        h in
    let (b, c) = then-ok (reject blank (empty_image major)) uid_check rest in
    (
      not-false (is_some (parse_int (codes major))) (reject-ok numeric (not_numeric major) a),
      reject-ok blank (empty_image major) b,
      uid-checked major ni.run_as_user c,
    )

validate_node_images-All : (m : Map NodeImage) → validate_node_images m ≡ ok tt → All NodeSound m
unfolding validate_node_images
validate_node_images-All [] h = tt
validate_node_images-All ((major, ni) ∷ m) h =
    let (one, rest) = then-ok (validate_node_image major ni) (validate_node_images m) h in
    (validate_node_image-NodeSound major ni one, validate_node_images-All m rest)

both_or_neither :
    (b g : Bool) (e f : ConfigError)
    → (reject (not b && not g) e >> reject (b && g) f) ≡ ok tt
    → not b ≡ g
both_or_neither true true e f h = cc
both_or_neither true false e f h = refl
both_or_neither false true e f h = refl
both_or_neither false false e f h = cc

-- A credential has the hosts that may receive it, and hosts are given with a credential only.
check_git_auth-hosts :
    (g : GitAuth) → check_git_auth g ≡ ok tt → not (str_eq g.secret_name "") ≡ given g.hosts
unfolding check_git_auth
check_git_auth-hosts g h =
    both_or_neither (str_eq g.secret_name "") (given g.hosts) secret_without_hosts
      hosts_without_secret h

module _ (is_cidr : String → Bool) where
  validate_cidrs-All :
      (cidrs : List String)
      → validate_cidrs is_cidr cidrs ≡ ok tt
      → All (λ c. is_cidr c ≡ true) cidrs
  validate_cidrs-All [] h = tt
  validate_cidrs-All (cidr ∷ cidrs) h =
      let (one, rest) =
        then-ok (reject (not (is_cidr cidr)) (bad_cidr cidr)) (validate_cidrs is_cidr cidrs) h in
      (not-false (is_cidr cidr) (reject-ok _ (bad_cidr cidr) one), validate_cidrs-All cidrs rest)

  -- The CIDRs that build pods must not reach are given, and each is one.
  validate-cidrs :
      {Q : Type 0} (c : OperatorConfig Q)
      → validate is_cidr c ≡ ok tt
      → (given c.cluster_cidrs ≡ true) × All (λ x. is_cidr x ≡ true) c.cluster_cidrs
  unfolding validate
  validate-cidrs c h =
      let last =
        reject (not (is_cidr metadata_ip)) (bad_cidr metadata_ip)
        >> reject (str_eq c.traefik_group "") no_traefik_group in
      let (one, rest) =
        then-ok (reject (not (given c.cluster_cidrs)) no_cluster_cidrs)
          (validate_cidrs is_cidr c.cluster_cidrs >> last) h in
      let (two, _) = then-ok (validate_cidrs is_cidr c.cluster_cidrs) last rest in
      (
        not-false (given c.cluster_cidrs) (reject-ok _ no_cluster_cidrs one),
        validate_cidrs-All c.cluster_cidrs two,
      )

  module _ {Q : Type 0} (parse_duration : String → Option ℤ) (is_cron : String → Bool)
      (parse_quantity : String → Option Q) where
    -- What was passed on the way.
    abbrev Passed : FileConfig → OperatorConfig Q → Type 0
    Passed fc c =
        (file_checks fc ≡ ok tt)
        × (validate is_cidr c ≡ ok tt)
        × (validate_node_images c.node_images ≡ ok tt)
        × (c.git_auth ≡ fc.git_auth)
        × InBounds c

    validated-ok :
        (d c : OperatorConfig Q)
        → validated is_cidr parse_duration is_cron parse_quantity d ≡ ok c
        → (d ≡ c) × (validate is_cidr d ≡ ok tt) × (validate_node_images d.node_images ≡ ok tt)
    unfolding validated
    validated-ok d c h =
        let (_, a, rest) =
          >>=-eq-ok (validate is_cidr d) (λ _. validate_node_images d.node_images >> ok d) h in
        let (_, b, last) = >>=-eq-ok (validate_node_images d.node_images) (λ _. ok d) rest in
        (ok-injective d c last, a, b)

    finish-ok :
        (fc : FileConfig) (d c : OperatorConfig Q) (mgr : ManagerOptions)
        → finish is_cidr parse_duration is_cron parse_quantity fc d ≡ ok (c, mgr)
        → (d ≡ c) × (validate is_cidr d ≡ ok tt) × (validate_node_images d.node_images ≡ ok tt)
    unfolding finish
    finish-ok fc d c mgr h =
        let (valid, passed, last) =
          >>=-eq-ok (validated is_cidr parse_duration is_cron parse_quantity d)
            (λ v. ok (v, manager_options fc)) h in
        let (same, a, b) = validated-ok d valid passed in
        (same ∙ ap (λ p. p.0) (ok-injective (valid, manager_options fc) (c, mgr) last), a, b)

    from_resources-Passed :
        (fc : FileConfig) (interval : ℤ) (triggers : String × String)
        (resources : PhaseResourceDefaults Q) (c : OperatorConfig Q) (mgr : ManagerOptions)
        → from_resources is_cidr parse_duration is_cron parse_quantity fc interval triggers
            resources
          ≡ ok (c, mgr)
        → Passed fc c
    unfolding from_resources
    from_resources-Passed fc interval triggers resources c mgr h =
        let d = defaults (config_of fc interval triggers resources) in
        let (_, checked, rest) =
          >>=-eq-ok (file_checks fc)
            (λ _. finish is_cidr parse_duration is_cron parse_quantity fc d) h in
        let (same, a, b) = finish-ok fc d c mgr rest in
        let (numbers, _) =
          then-ok (check_numbers fc)
            (check_git_auth fc.git_auth
              >> validate_default_setup_commands fc.default_setup_commands)
            (by_parts fc checked) in
        subst (Passed fc) same (
          checked,
          a,
          b,
          git_auth_kept fc interval triggers resources,
          defaults-InBounds fc interval triggers resources (check_numbers-NumbersSound fc numbers),
        )

    load_config-Passed :
        (fc : FileConfig) (c : OperatorConfig Q) (mgr : ManagerOptions)
        → load_config is_cidr parse_duration is_cron parse_quantity fc ≡ ok (c, mgr)
        → Passed fc c
    unfolding load_config from_interval from_triggers
    load_config-Passed fc c mgr h =
        let (interval, _, h1) =
          >>=-eq-ok
            (load_interval is_cidr parse_duration is_cron parse_quantity fc.measure_interval)
            (from_interval is_cidr parse_duration is_cron parse_quantity fc) h in
        let (triggers, _, h2) =
          >>=-eq-ok (load_triggers is_cidr parse_duration is_cron parse_quantity fc)
            (from_triggers is_cidr parse_duration is_cron parse_quantity fc interval) h1 in
        let (resources, _, h3) =
          >>=-eq-ok
            (load_resources is_cidr parse_duration is_cron parse_quantity fc.phase_resources)
            (from_resources is_cidr parse_duration is_cron parse_quantity fc interval triggers)
            h2 in
        from_resources-Passed fc interval triggers resources c mgr h3

    -- The numbers of a configuration that was loaded are within their bounds, whatever the file omits: the
    -- interval between measurements, the deadline, the retries and the threshold are at least 1, the delay
    -- is not negative, and the two histories keep between 1 and 50 builds.
    pub load_config-InBounds :
        (fc : FileConfig) (c : OperatorConfig Q) (mgr : ManagerOptions)
        → load_config is_cidr parse_duration is_cron parse_quantity fc ≡ ok (c, mgr)
        → InBounds c
    load_config-InBounds fc c mgr h = (load_config-Passed fc c mgr h).4

    -- A configuration is loaded only where it is safe to run with: there are cluster CIDRs to keep build pods
    -- away from, and each is one; each managed node image has a numeric major, an image and a uid that is not
    -- root; and there is a git credential exactly where there are hosts that may receive it. The check that
    -- each reconcile makes of the configuration again passes.
    pub load_config-IsSafe :
        (fc : FileConfig) (c : OperatorConfig Q) (mgr : ManagerOptions)
        → load_config is_cidr parse_duration is_cron parse_quantity fc ≡ ok (c, mgr)
        → (given c.cluster_cidrs ≡ true)
          × All (λ x. is_cidr x ≡ true) c.cluster_cidrs
          × All NodeSound c.node_images
          × (not (str_eq c.git_auth.secret_name "") ≡ given c.git_auth.hosts)
          × (validate is_cidr c ≡ ok tt)
    load_config-IsSafe fc c mgr h =
        let (checked, valid, nodes, kept, _) = load_config-Passed fc c mgr h in
        let (cidrs, all_cidrs) = validate-cidrs c valid in
        let (_, rest) =
          then-ok (check_numbers fc)
            (check_git_auth fc.git_auth
              >> validate_default_setup_commands fc.default_setup_commands)
            (by_parts fc checked) in
        let (git, _) =
          then-ok (check_git_auth fc.git_auth)
            (validate_default_setup_commands fc.default_setup_commands) rest in
        (
          cidrs,
          all_cidrs,
          validate_node_images-All c.node_images nodes,
          subst (λ (g : GitAuth). not (str_eq g.secret_name "") ≡ given g.hosts) (sym kept)
              (check_git_auth-hosts fc.git_auth git),
          valid,
        )
