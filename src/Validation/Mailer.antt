-- ===== src/Validation/Mailer.antt =====
-- The templates of mails in apps/manager/internal/project/configuration.go: lengths, and the actions of package
-- text/template that stand in them.
use supabase_installer.Prelude.{
  ℕ, zero, suc, ◌+◌, String, Bool, true, false, ◌&&◌, ◌||◌, not, Option, none, some, List, [], ◌∷◌,
  ◌++◌, ltb, ◌==◌, any, every, if◌then◌else◌, Text, codes, is_nil, same_text, trim, length,
}
use supabase_installer.Contracts.Configuration.{EmailTemplateConfig, MailerConfig}
use supabase_installer.Validation.{named, Check, check}
use supabase_installer.Validation.Texts.{Packages, byte_len}

abbrev left_brace : ℕ
left_brace = 123

abbrev right_brace : ℕ
right_brace = 125

-- the characters up to the next brace, if some stand there and two right braces follow them
abbrev inner : Text → Option Text → Option Text
inner seen none = none
inner seen (some s) = some (seen ++ s)

abbrev starts_with_brace : Text → Bool
starts_with_brace [] = false
starts_with_brace (c ∷ s) = c == right_brace

unfoldable closed_run : Bool → Text → Option Text
closed_run started [] = none
closed_run started (c ∷ s) =
    let more = closed_run true s in
    if c == right_brace
    then (if started && starts_with_brace s then some [] else none)
    else (if c == left_brace then none else inner (c ∷ []) more)

-- {{\s*([^{}]+?)\s*}} at the start of a text: the group, with the spaces that TrimSpace cuts
abbrev action_at : Text → Option Text
unfolding closed_run
action_at [] = none
action_at (c ∷ []) = none
action_at (c ∷ d ∷ s) = if c == left_brace && d == left_brace then closed_run false s else none

-- FindAllStringSubmatch: `skip` characters are part of the last match
unfoldable pub actions : ℕ → Text → List Text
unfolding action_at
actions skip [] = []
actions (suc skip) (c ∷ s) = actions skip s
actions zero (c ∷ s) = elim (action_at (c ∷ s)) [
  | none ↦ actions zero s
  | some group ↦ group ∷ actions (length group + 3) s
]

-- strings.Count of a brace that is doubled
unfoldable pub count_pairs : ℕ → Text → ℕ
count_pairs brace [] = 0
count_pairs brace (c ∷ []) = 0
count_pairs brace (c ∷ d ∷ s) =
    let after = count_pairs brace s in
    let next = count_pairs brace (d ∷ s) in if c == brace && d == brace then suc after else next

abbrev pub allowed_mailer_template_variables : List Text
allowed_mailer_template_variables =
    codes ".ConfirmationURL"
    ∷ codes ".Token"
    ∷ codes ".TokenHash"
    ∷ codes ".SiteURL"
    ∷ codes ".Email"
    ∷ codes ".Data"
    ∷ codes ".RedirectTo"
    ∷ []

module _ (packages : Packages) where
  abbrev pub is_allowed : Text → Bool
  is_allowed action =
      any (same_text (trim packages.is_space action)) allowed_mailer_template_variables

  -- the two messages exclude each other: the first one returns
  unfoldable pub validate_mailer_template_variables : Text → String → List Check
  validate_mailer_template_variables value field =
      let matches = actions 0 value in
      let odd = not (
        count_pairs left_brace value == length matches
        && count_pairs right_brace value == length matches) in
      check odd (named field) "contains an invalid Go template action"
      ∷ check (not odd && not (every is_allowed matches)) (named field)
          "may only use documented mailer template variables"
      ∷ []

  -- the fields are those of one template
  unfoldable pub validate_mailer_template : EmailTemplateConfig → String → String → List Check
  validate_mailer_template template subject body =
      check (ltb 255 (byte_len template.subject)) (named subject) "must be at most 255 characters"
      ∷ check (any (λ c. c == 10 || c == 13) template.subject) (named subject)
          "must not contain a newline"
      ∷ check (is_nil template.body) (named body) "is required"
      ∷ check (not (is_nil template.body) && ltb 262144 (byte_len template.body)) (named body)
          "must be at most 256 KiB"
      ∷ (validate_mailer_template_variables template.subject subject
          ++ validate_mailer_template_variables template.body body)

  unfoldable pub validate_mailer : MailerConfig → List Check
  validate_mailer mailer =
      let t = mailer.templates in
      let n = mailer.notifications in
      validate_mailer_template t.confirmation "auth.mailer.templates.confirmation.subject"
        "auth.mailer.templates.confirmation.body"
      ++ (validate_mailer_template t.invite "auth.mailer.templates.invite.subject"
            "auth.mailer.templates.invite.body"
          ++ (validate_mailer_template t.magic_link "auth.mailer.templates.magicLink.subject"
                "auth.mailer.templates.magicLink.body"
              ++ (validate_mailer_template t.email_change
                    "auth.mailer.templates.emailChange.subject"
                    "auth.mailer.templates.emailChange.body"
                  ++ (validate_mailer_template t.recovery "auth.mailer.templates.recovery.subject"
                        "auth.mailer.templates.recovery.body"
                      ++ (validate_mailer_template t.reauthentication
                            "auth.mailer.templates.reauthentication.subject"
                            "auth.mailer.templates.reauthentication.body"
                          ++ (validate_mailer_template n.password_changed.template
                                "auth.mailer.notifications.passwordChanged.subject"
                                "auth.mailer.notifications.passwordChanged.body"
                              ++ (validate_mailer_template n.email_changed.template
                                    "auth.mailer.notifications.emailChanged.subject"
                                    "auth.mailer.notifications.emailChanged.body"
                                  ++ (validate_mailer_template n.phone_changed.template
                                        "auth.mailer.notifications.phoneChanged.subject"
                                        "auth.mailer.notifications.phoneChanged.body"
                                      ++ (validate_mailer_template n.identity_linked.template
                                            "auth.mailer.notifications.identityLinked.subject"
                                            "auth.mailer.notifications.identityLinked.body"
                                          ++ (validate_mailer_template n.identity_unlinked.template
                                                "auth.mailer.notifications.identityUnlinked.subject"
                                                "auth.mailer.notifications.identityUnlinked.body"
                                              ++ (validate_mailer_template
                                                    n.mfa_factor_enrolled.template
                                                    "auth.mailer.notifications.mfaFactorEnrolled.subject"
                                                    "auth.mailer.notifications.mfaFactorEnrolled.body"
                                                  ++ validate_mailer_template
                                                      n.mfa_factor_unenrolled.template
                                                      "auth.mailer.notifications.mfaFactorUnenrolled.subject"
                                                      "auth.mailer.notifications.mfaFactorUnenrolled.body")))))))))))
