-- ===== src/TaskPayload.antt =====
-- apps/server/src/api/task-payload-validation.ts: the keys that the payload of a task may have.
use Prim.Native.String.{◌++◌ as str_append}
use tea_tax_product.Prelude.{
  ℕ, ◌+◌, leb, ◌==◌, ◌&&◌, ◌||◌, refl, all, map, String, ◌≡◌, ◌↔◌, Bool, true, false, Option, none,
  some, List, [], ◌∷◌, arith, any, if◌then◌else◌,
}
use tea_tax_product.Js.{
  Value, Fields, null, bool, num, str, arr, obj, end, field, lower_is, lower, code_points,
  same_codes,
}

unfoldable pub payload_pii_denylist : List String
payload_pii_denylist =
    "email" ∷ "name" ∷ "address" ∷ "phone" ∷ "ssn" ∷ "content" ∷ "body" ∷ "message" ∷ "text"
    ∷ "description" ∷ "title" ∷ "subject" ∷ "password" ∷ "secret" ∷ "token" ∷ []

-- PAYLOAD_PII_DENYLIST.has(key.toLowerCase())
unfoldable pub is_denied : String → Bool
unfolding payload_pii_denylist
is_denied key = any (lower_is key) payload_pii_denylist

-- Object.keys
unfoldable pub keys_of_fields : Fields → List String
keys_of_fields end = []
keys_of_fields (field key v rest) = key ∷ keys_of_fields rest

unfoldable pub denied_message : String → String
denied_message key =
    str_append "payload key \""
      (str_append key "\" is not allowed — use a resource ID reference instead")

unfoldable pub check_keys : List String → Option String
unfolding is_denied
check_keys [] = none
check_keys (key ∷ keys) =
    let later = check_keys keys in if is_denied key then some (denied_message key) else later

-- The message of the PayloadValidationError that is thrown; `none` means that nothing is thrown.
unfoldable pub validate_task_payload : Value → Option String
unfolding keys_of_fields check_keys
validate_task_payload (obj fields) = check_keys (keys_of_fields fields)
validate_task_payload (arr vs) = some "payload must be a flat JSON object"
validate_task_payload (str s) = some "payload must be a flat JSON object"
validate_task_payload (num n) = some "payload must be a flat JSON object"
validate_task_payload (bool b) = some "payload must be a flat JSON object"
validate_task_payload null = some "payload must be a flat JSON object"

-- The words that no key may be, whatever the case of its letters.
abbrev pub forbidden_words : List String
forbidden_words =
    "email" ∷ "name" ∷ "address" ∷ "phone" ∷ "ssn" ∷ "content" ∷ "body" ∷ "message" ∷ "text"
    ∷ "description" ∷ "title" ∷ "subject" ∷ "password" ∷ "secret" ∷ "token" ∷ []

-- A character and a small letter: the letter itself, its capital, or the Kelvin sign for k.
abbrev pub same_letter : ℕ → ℕ → Bool
same_letter c w = c == w || c + 32 == w || (c == 8490 && w == 107)

abbrev pub same_word : List ℕ → List ℕ → Bool
same_word [] [] = true
same_word (c ∷ cs) (w ∷ ws) = same_letter c w && same_word cs ws
same_word _ _ = false

abbrev pub is_forbidden : String → Bool
is_forbidden key = any (λ word. same_word (code_points key) (code_points word)) forbidden_words

abbrev small : ℕ → Bool
small w = leb 97 w && leb w 122

lower-same_letter : (c w : ℕ) → small w ≡ true → (lower c == w) ≡ same_letter c w
unfolding lower
lower-same_letter c w h = ground arith

same_codes-same_word :
    (cs ws : List ℕ) → all small ws ≡ true → same_codes (map lower cs) ws ≡ same_word cs ws
unfolding same_codes all
same_codes-same_word [] [] h = refl
same_codes-same_word [] (w ∷ ws) h = refl
same_codes-same_word (c ∷ cs) [] h = refl
same_codes-same_word (c ∷ cs) (w ∷ ws) h =
    ground (arith, lower-same_letter c w, same_codes-same_word cs ws)

any-lower_is :
    (key : String) (words : List String)
    → all (λ word. all small (code_points word)) words ≡ true
    → any (lower_is key) words ≡ any (λ word. same_word (code_points key) (code_points word)) words
unfolding any all lower_is
any-lower_is key [] h = refl
any-lower_is key (word ∷ words) h =
    ground
      (arith, any-lower_is key words, same_codes-same_word (code_points key) (code_points word))

is_denied-is_forbidden : (key : String) → is_denied key ≡ is_forbidden key
unfolding is_denied payload_pii_denylist any all
is_denied-is_forbidden key = any-lower_is key forbidden_words refl

any-is_denied : (keys : List String) → any is_denied keys ≡ any is_forbidden keys
unfolding any
any-is_denied [] = refl
any-is_denied (key ∷ keys) = rw (is_denied-is_forbidden key, any-is_denied keys) refl

-- The payload is no object, or has a key that is a forbidden word.
abbrev pub denied_keys : Value → Bool
denied_keys (obj fields) = any is_forbidden (keys_of_fields fields)
denied_keys _ = true

check_keys-any : (keys : List String) → (check_keys keys ≡ none) ↔ (any is_denied keys ≡ false)
unfolding check_keys any
check_keys-any [] = ground arith
check_keys-any (key ∷ keys) = ground (arith, check_keys-any keys)

-- A payload is accepted exactly when it is an object none of whose keys, at its top level, is one of fifteen words, in
-- whatever case its letters are written.
pub validate_task_payload-accepts :
    (v : Value) → (validate_task_payload v ≡ none) ↔ (denied_keys v ≡ false)
unfolding validate_task_payload
validate_task_payload-accepts (obj fields) =
    rw (any-is_denied (keys_of_fields fields)) at (check_keys-any (keys_of_fields fields))
validate_task_payload-accepts (arr vs) = ground arith
validate_task_payload-accepts (str s) = ground arith
validate_task_payload-accepts (num n) = ground arith
validate_task_payload-accepts (bool b) = ground arith
validate_task_payload-accepts null = ground arith
