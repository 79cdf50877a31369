-- ===== src/Mailer/Delivery.antt =====
-- What becomes of the jobs that the auth service adds.
use dist_link.Base.{
  suc, ◌+◌, ◌<◌, String, ◌≡◌, ◌⊎◌, inl, inr, refl, true, Option, none, some, [], ◌∷◌, ◌++◌,
  Bool-cases, Option-cases,
}
use dist_link.Base.Exec.{generic, ok, err}
use dist_link.Base.Faults.{next_fails, later}
use dist_link.Auth.World.{Env, World, Job, verification, password_reset, calm}
use dist_link.Auth.Users.{UserData}
use dist_link.Auth.Tokens.{verification_life}
use dist_link.Auth.Service.{register, verify_email, link_to}
use dist_link.Auth.Accounts.{new_account, verification_token, verify-register}
use dist_link.Mailer.{
  Handlebars, Files, Mailer, Mail, TemplateData, verification_data, reset_data, load_templates,
  handle,
}

-- The job of a registration.
module _ {env : Env} where
  abbrev pub registration_link : UserData → World env → String
  registration_link d w = link_to env.base_url "/auth/verify-email?token=" (verification_token d w)

  abbrev pub registration_job : UserData → World env → Job
  registration_job d w = verification (some d.email) (some d.full_name) (registration_link d w)

  register_jobs :
      (d : UserData) (w : World env)
      → env.users.by_email w.users d.email ≡ none
      → (register d (calm w)).1.jobs ≡ w.jobs ++ registration_job d w ∷ []
  unfolding register
  register_jobs d w free = rw free

abbrev pub registration_mail :
    {handlebars : Handlebars} → UserData → String → Mailer handlebars → Mail
registration_mail d html m = record {
  from = m.config.email_from;
  to = some d.email;
  subject = "Verify your email address";
  html = html;
}

module _ {env : Env} {handlebars : Handlebars} where
  abbrev pub registration_data : UserData → World env → Mailer handlebars → TemplateData
  registration_data d w m =
      verification_data (some d.full_name) (registration_link d w) m.config.base_url

  handle_verification :
      (d : UserData) (w : World env) (template : handlebars.Template) (html : String)
      (m : Mailer handlebars)
      → m.verification_template ≡ some template
      → handlebars.render template (registration_data d w m) ≡ some html
      → m.faults ≡ []
      → handle (registration_job d w) m
        ≡ (ok true, record m { sent = m.sent ++ registration_mail d html m ∷ [] })
  unfolding handle
  handle_verification d w template html m there filled quiet = rw (there, filled, quiet)

  -- A registration of a new email, with no failing call, queues one job; the worker that takes it, with
  -- a template that renders and a transporter that takes the mail, sends the template with the link of
  -- the registration to the email; and the token of that link activates the account, within a day, if
  -- the accounts are as the registration left them.
  pub register_mails :
      (d : UserData) (w later : World env) (template : handlebars.Template) (html : String)
      (m : Mailer handlebars)
      → env.users.by_email w.users d.email ≡ none
      → m.verification_template ≡ some template
      → handlebars.render template (registration_data d w m) ≡ some html
      → m.faults ≡ []
      → later.users ≡ (register d (calm w)).1.users
      → later.now < w.now + verification_life
      → (job : Job) × ((register d (calm w)).1.jobs ≡ w.jobs ++ job ∷ [])
        × (handle job m ≡ (ok true, record m { sent = m.sent ++ registration_mail d html m ∷ [] }))
        × (env.users.by_id
              (verify_email (verification_token d w) (calm later)).1.users
              (env.uuid (suc w.seed))
            ≡ some (record (new_account d w) { is_active = true }))
  register_mails d w later template html m free there filled quiet same soon = (
    registration_job d w,
    register_jobs d w free,
    handle_verification d w template html m there filled quiet,
    (verify-register d w later free same soon).1,
  )

module _ {handlebars : Handlebars} where
  -- One mail has been sent and the handler has returned, or none and it has thrown.
  abbrev pub IsSettled : Job → Mailer handlebars → Type 0
  IsSettled job m =
      ((mail : Mail) × ((handle job m).0 ≡ ok true) × ((handle job m).1.sent ≡ m.sent ++ mail ∷ []))
      ⊎ (((handle job m).0 ≡ err generic) × ((handle job m).1.sent ≡ m.sent))

  verification-IsSettled :
      (to name : Option String) (link : String) (m : Mailer handlebars)
      → IsSettled (verification to name link) m
  verification-IsSettled to name link m = elim (Option-cases m.verification_template) [
    | inl missing ↦ inr (unfold handle in rw missing (refl, refl))
    | inr (template, there) ↦
        elim (Option-cases
          (handlebars.render template (verification_data name link m.config.base_url))) [
            | inl bad ↦ inr (unfold handle in rw (there, bad) (refl, refl))
            | inr (html, good) ↦ elim (Bool-cases (next_fails m.faults)) [
              | inl fails ↦ inr (unfold handle in rw (there, good, fails) (refl, refl))
              | inr takes ↦ inl (
                record {
                  from = m.config.email_from;
                  to = to;
                  subject = "Verify your email address";
                  html = html;
                },
                unfold handle in rw (there, good, takes) refl,
                unfold handle in rw (there, good, takes) refl,
              )
            ]
          ]
  ]

  reset-IsSettled :
      (to name : Option String) (link : String) (m : Mailer handlebars)
      → IsSettled (password_reset to name link) m
  reset-IsSettled to name link m = elim (Option-cases m.reset_template) [
    | inl missing ↦ inr (unfold handle in rw missing (refl, refl))
    | inr (template, there) ↦
        elim (Option-cases (handlebars.render template (reset_data name link m.config.base_url))) [
          | inl bad ↦ inr (unfold handle in rw (there, bad) (refl, refl))
          | inr (html, good) ↦ elim (Bool-cases (next_fails m.faults)) [
            | inl fails ↦ inr (unfold handle in rw (there, good, fails) (refl, refl))
            | inr takes ↦ inl (
              record {
                from = m.config.email_from;
                to = to;
                subject = "Reset your password";
                html = html;
              },
              unfold handle in rw (there, good, takes) refl,
              unfold handle in rw (there, good, takes) refl,
            )
          ]
        ]
  ]

  -- The worker sends one mail when it returns; an error of a template or of the transporter is thrown
  -- on, and then no mail is sent.
  handle-IsSettled : (job : Job) (m : Mailer handlebars) → IsSettled job m
  handle-IsSettled (verification to name link) m = verification-IsSettled to name link m
  handle-IsSettled (password_reset to name link) m = reset-IsSettled to name link m

  -- When the template of the verification email cannot be read, every password reset fails and sends
  -- no mail, although its own template may be there.
  resets_need_verification :
      (files : Files) (to name : Option String) (link : String) (m : Mailer handlebars)
      → files "active-email.hbs" ≡ none
      → m.reset_template ≡ none
      → handle (password_reset to name link) (load_templates files m) ≡ (err generic, m)
  unfolding handle load_templates
  resets_need_verification files to name link m missing fresh = rw (missing, fresh)
