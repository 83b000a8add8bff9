-- ===== src/Tests/Redactions.antt =====
-- The redactor at concrete inputs.
use helpan_ai.Prelude.{◌≡◌, refl}
use helpan_ai.Json.{Json, str, obj, field, end, nat, arr, cons, nil}
use helpan_ai.Actions.Redactor.{redact_payload, redact_value}
use helpan_ai.Actions.Redactor.Texts.{
  utf16_length, is_pii_key, is_email, is_phone, is_pan, is_space, is_digit, without_spaces,
  utf16_units,
}
use helpan_ai.Actions.Redactor.Laws.{IsClean, redact_payload-IsClean, redact_payload_twice}

abbrev order : Json
order = obj (
    field "amount_minor" (nat 300) (
      field "Recipient_Phone" (str "0712") (
        field "notes"
          (arr (cons (str "a@b.co") (cons (str "call +254 700-123456") (cons (str "milk") nil))))
          end)))

order_redacted :
    redact_payload order
    ≡ obj (
        field "amount_minor" (nat 300) (
          field "Recipient_Phone" (str "[REDACTED]") (
            field "notes"
              (arr (
                cons
                  (str "[REDACTED:email]")
                  (cons (str "[REDACTED:phone]") (cons (str "milk") nil))))
              end)))
unfolding redact_payload redact_value is_pii_key is_email is_phone is_pan is_space is_digit
    without_spaces utf16_units utf16_length
order_redacted = refl

-- A key is not tested as a text: an address that stands for one is stored.
address_key_stored :
    redact_payload (obj (field "alice@example.com" (nat 1) end))
    ≡ obj (field "alice@example.com" (nat 1) end)
unfolding redact_payload redact_value is_pii_key is_email is_phone is_pan is_space is_digit
    without_spaces utf16_units utf16_length
address_key_stored = refl

redact_payload-IsClean_example : IsClean (redact_payload order)
redact_payload-IsClean_example = redact_payload-IsClean order

redact_payload_twice_example :
    redact_payload (redact_payload (obj (field "pin" (nat 1234) end)))
    ≡ redact_payload (obj (field "pin" (nat 1234) end))
redact_payload_twice_example = redact_payload_twice (field "pin" (nat 1234) end)
