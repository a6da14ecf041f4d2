-- ===== src/Protocol/Prompt.antt =====
-- packages/protocol/src/prompt.ts: texts that the agent's harness injects as the user's.
use Prim.Native.Nat.{ℕ, ◌+◌}
use Prim.Native.Char.{code}
use Prim.Native.String.{String}
use telecode.Base.{
  Bool, true, false, ◌&&◌, ◌||◌, List, [], ◌∷◌, any, leb, if◌then◌else◌, ◌==◌, nat_eq, ◌≡◌, refl,
}

abbrev pub injected_prompt_tags : List String
injected_prompt_tags =
    "local-command-caveat" ∷ "local-command-stdout" ∷ "local-command-stderr" ∷ "command-name"
    ∷ "command-message" ∷ "command-args" ∷ "command-contents" ∷ "system-reminder" ∷ "bash-input"
    ∷ "bash-stdout" ∷ "bash-stderr" ∷ "user-memory-input" ∷ "task-notification" ∷ []

-- JavaScript's white space, which `\s` and `trimStart` take.
is_space : ℕ → Bool
is_space n =
    (leb 9 n && leb n 13)
    || (n == 32)
    || (n == 160)
    || (n == 5760)
    || (leb 8192 n && leb n 8202)
    || (n == 8232)
    || (n == 8233)
    || (n == 8239)
    || (n == 8287)
    || (n == 12288)
    || (n == 65279)

trim_start : String → String
unfolding is_space
trim_start String.[] = String.[]
trim_start (String.◌∷◌ c s) =
    let rest = trim_start s in if is_space (code c) then rest else String.◌∷◌ c s

-- The flag `i`: ASCII letters compare in lower case, other characters as they are.
folded : ℕ → ℕ
folded n = if leb 65 n && leb n 90 then n + 32 else n

-- `(?=[\s/>])`.
ends_tag : String → Bool
unfolding is_space
ends_tag String.[] = false
ends_tag (String.◌∷◌ c s) = is_space (code c) || (code c == 47) || (code c == 62)

-- The tag stands at the start of the text, and ends there.
starts_with_tag : String → String → Bool
unfolding folded ends_tag
starts_with_tag String.[] s = ends_tag s
starts_with_tag (String.◌∷◌ t ts) String.[] = false
starts_with_tag (String.◌∷◌ t ts) (String.◌∷◌ c s) =
    (folded (code t) == folded (code c)) && starts_with_tag ts s

is_tag_at : String → Bool
unfolding starts_with_tag
is_tag_at String.[] = false
is_tag_at (String.◌∷◌ c s) =
    (code c == 60) && any (λ tag. starts_with_tag tag s) injected_prompt_tags

unfoldable pub is_injected_prompt : String → Bool
unfolding trim_start is_tag_at
is_injected_prompt text = is_tag_at (trim_start text)

injected : is_injected_prompt "  <Command-Name>clear" ≡ true
unfolding is_injected_prompt trim_start is_space is_tag_at starts_with_tag folded ends_tag
injected = refl

other_tag : is_injected_prompt "<command-name-extra>" ≡ false
unfolding is_injected_prompt trim_start is_space is_tag_at starts_with_tag folded ends_tag
other_tag = refl
