-- ===== src/Mailer.antt =====
-- modules/mailer/mailer.service.ts, `MailerService`, and modules/queue/processors/email.processor.ts,
-- `EmailProcessor`: the worker that takes the jobs of the email queue. Handlebars and the files are
-- parameters.
pub mod Delivery
use dist_link.Base.{
  ℕ, String, Bool, true, false, Option, none, some, List, [], ◌∷◌, ◌++◌, ◌==◌, if◌then◌else◌,
}
use dist_link.Base.Exec.{generic, ok, err, Exec, pure, throw, gets, try_catch, ◌>>=◌, ◌>>◌}
use dist_link.Base.Faults.{next_fails, later}
use dist_link.Auth.World.{Job, verification, password_reset}

-- The data of a template, each under its own name.
pub data TemplateData : Type 0 where
  verification_data : (name : Option String) (link base_url : String) → TemplateData
  reset_data : (name : Option String) (link base_url : String) → TemplateData

-- A template throws where it cannot be parsed.
pub record Handlebars : Type 1 where
  pub Template : Type 0
  pub compile : String → Template
  pub render : Template → TemplateData → Option String

-- `readFileSync` in the directory of the templates; `none` where it throws.
abbrev pub Files : Type 0
Files = String → Option String

pub record Config : Type 0 where
  pub base_url : String
  pub email_from : String

pub record Mail : Type 0 where
  pub from : String
  pub to : Option String
  pub subject : String
  pub html : String

-- `templates`, and what the transporter was given
pub record Mailer (handlebars : Handlebars) : Type 0 where
  pub config : Config
  pub verification_template : Option handlebars.Template
  pub reset_template : Option handlebars.Template
  pub sent : List Mail
  pub faults : List Bool

module _ {handlebars : Handlebars} where
  abbrev pub then_reset : Option String → Mailer handlebars → Mailer handlebars
  then_reset none m = m
  then_reset (some text) m = record m { reset_template = some (handlebars.compile text) }

  -- A file that cannot be read ends the `try`.
  abbrev pub then_verification :
      Option String → Option String → Mailer handlebars → Mailer handlebars
  then_verification none reset m = m
  then_verification (some text) reset m =
      then_reset reset (record m { verification_template = some (handlebars.compile text) })

  unfoldable pub load_templates : Files → Mailer handlebars → Mailer handlebars
  load_templates files m =
      then_verification (files "active-email.hbs") (files "reset-password-email.hbs") m

  -- A mail with the sender of the configuration; no caller names another.
  unfoldable pub send_mail : Option String → (subject html : String) → Exec (Mailer handlebars) Unit
  send_mail to subject html m =
      if next_fails m.faults then (err generic, record m { faults = later m.faults }) else (
        ok tt,
        record m {
          sent =
              m.sent
              ++ record { from = m.config.email_from; to = to; subject = subject; html = html }
                ∷ [];
          faults = later m.faults;
        },
      )

  abbrev pub html_or_throw : Option String → Exec (Mailer handlebars) String
  html_or_throw none = throw generic
  html_or_throw (some html) = pure html

  -- `template({ ... })`, of a template that may be missing
  abbrev pub fill : Option handlebars.Template → TemplateData → Exec (Mailer handlebars) String
  fill none values = throw generic
  fill (some template) values = html_or_throw (handlebars.render template values)

  unfoldable pub send_verification_email :
      (to name : Option String) → (link : String) → Exec (Mailer handlebars) Unit
  unfolding send_mail
  send_verification_email to name link = do
    template ← gets (λ m. m.verification_template)
    base_url ← gets (λ m. m.config.base_url)
    html ← fill template (verification_data name link base_url)
    send_mail to "Verify your email address" html

  unfoldable pub send_password_reset_email :
      (to name : Option String) → (link : String) → Exec (Mailer handlebars) Unit
  unfolding send_mail
  send_password_reset_email to name link = do
    template ← gets (λ m. m.reset_template)
    base_url ← gets (λ m. m.config.base_url)
    html ← fill template (reset_data name link base_url)
    send_mail to "Reset your password" html

  -- The handlers of the two kinds of jobs; an error is thrown on.
  unfoldable pub handle : Job → Exec (Mailer handlebars) Bool
  unfolding send_verification_email send_password_reset_email
  handle (verification to name link) =
      try_catch (do send_verification_email to name link; pure true) throw
  handle (password_reset to name link) =
      try_catch (do send_password_reset_email to name link; pure true) throw
