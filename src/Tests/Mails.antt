-- ===== src/Tests/Mails.antt =====
-- The theorems on the worker of the email queue, with templates that are texts.
use Prim.Native.String
use dist_link.Base.{String, ◌≡◌, refl, true, none, some, [], ◌∷◌, ◌++◌, Option, arith}
use dist_link.Tests.People.{morning, carol, after_register, carol_free}
use dist_link.Base.Dict.{get}
use dist_link.Base.Exec.{ok}
use dist_link.Auth.World.{Job, password_reset, calm}
use dist_link.Auth.Service.{register, verify_email}
use dist_link.Auth.Accounts.{new_account, verification_token}
use dist_link.Mailer.{
  Handlebars, Files, Mailer, TemplateData, verification_data, reset_data, load_templates, handle,
}
use dist_link.Mailer.Delivery.{registration_mail, register_mails}

-- A template is followed by the link.
abbrev print : String → TemplateData → Option String
print text (verification_data name link base_url) = some (String.◌++◌ text link)
print text (reset_data name link base_url) = some (String.◌++◌ text link)

abbrev plain : Handlebars
plain = record { Template = String; compile = λ text. text; render = print }

abbrev new_mailer : Mailer plain
new_mailer = record {
  config = record { base_url = "https://l.ink"; email_from = "no-reply@l.ink" };
  verification_template = none;
  reset_template = none;
  sent = [];
  faults = [];
}

abbrev files : Files
files path = some "Click here: "

-- A job of a reset with both templates, while the transporter fails.
abbrev reset_job : Job
reset_job = password_reset (some "ann@l.ink") none "https://l.ink/r"

reset_test :
    (handle reset_job (load_templates files new_mailer)).1.sent
    ≡ record {
      from = "no-reply@l.ink";
      to = some "ann@l.ink";
      subject = "Reset your password";
      html = "Click here: https://l.ink/r";
    }
      ∷ []
unfolding handle load_templates
reset_test = refl

abbrev ready : Mailer plain
ready = load_templates files new_mailer

-- The template of the verification email, and what it gives for the registration.
template_there : ready.verification_template ≡ some "Click here: "
unfolding load_templates
template_there = refl

abbrev html : String
html = String.◌++◌ "Click here: " (
    String.◌++◌ "https://l.ink"
      (String.◌++◌ "/auth/verify-email?token=" (verification_token carol morning)))

ready_is_quiet : ready.faults ≡ []
unfolding load_templates
ready_is_quiet = refl

register_mails_example :
    (job : Job) × ((register carol (calm morning)).1.jobs ≡ [] ++ job ∷ [])
    × (handle job ready
        ≡ (ok true, record ready { sent = ready.sent ++ registration_mail carol html ready ∷ [] }))
    × (get (verify_email (verification_token carol morning) (calm after_register)).1.users "id-new"
        ≡ some (record (new_account carol morning) { is_active = true }))
register_mails_example =
    register_mails carol morning after_register "Click here: " html ready carol_free template_there
      refl ready_is_quiet refl (omega arith)
