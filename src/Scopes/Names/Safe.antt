-- ===== src/Scopes/Names/Safe.antt =====
-- The characters and the length of the ids that `normalizeProjectId` gives.
use agent_recall.Common.{
  ℕ, suc, zero, ◌≤◌, String, Bool, true, false, ◌&&◌, not, some, ◌==◌, ◌≡◌, refl, arith, subst,
  Bool-cases, inl, inr,
}
use Prim.Native.Char.{Char, code}
use agent_recall.Budget.Rows.{code_point_count}
use agent_recall.Scopes.Names.{
  is_alphanumeric, is_safe, safe_char, replace_unsafe, join_dashes, first_chars, any_char,
  is_windows_unsafe, sanitize_project_id, normalize_project_id, starts_with_dash,
}

-- every character is a letter, a digit or one of `_.-`, and no dash follows a dash
unfoldable pub is_safe_text : String → Bool
is_safe_text String.[] = true
is_safe_text (String.◌∷◌ c text) =
    is_safe (code c) && not (code c == b'-' && starts_with_dash text) && is_safe_text text

-- what a project id has to be
pub record IsUsable (id : String) : Type 0 where
  pub safe : is_safe_text id ≡ true
  pub short : code_point_count id ≤ 96
  pub named : any_char is_alphanumeric id ≡ true
  pub portable : is_windows_unsafe id ≡ false

unfoldable all_safe : String → Bool
all_safe String.[] = true
all_safe (String.◌∷◌ c text) = is_safe (code c) && all_safe text

safe_char_lem : (c : Char) → is_safe (code (safe_char c)) ≡ true
safe_char_lem c = elim (Bool-cases (is_safe (code c))) [ inl e ↦ rw e e | inr e ↦ rw e refl ]

replace_unsafe_lem : (text : String) → all_safe (replace_unsafe text) ≡ true
unfolding replace_unsafe all_safe
replace_unsafe_lem String.[] = refl
replace_unsafe_lem (String.◌∷◌ c text) = rw (safe_char_lem c) (replace_unsafe_lem text)

join_dashes_lem : (text : String) → all_safe text ≡ true → is_safe_text (join_dashes text) ≡ true
unfolding join_dashes all_safe is_safe_text
join_dashes_lem String.[] h = refl
join_dashes_lem (String.◌∷◌ c text) h = ground (arith, join_dashes_lem text)

first_chars_dash :
    (n : ℕ) (text : String)
    → starts_with_dash (first_chars n text) ≡ true
    → starts_with_dash text ≡ true
unfolding first_chars
first_chars_dash zero text h = cc
first_chars_dash (suc n) String.[] h = h
first_chars_dash (suc n) (String.◌∷◌ c text) h = h

first_chars_lem :
    (n : ℕ) (text : String)
    → is_safe_text text ≡ true
    → (is_safe_text (first_chars n text) ≡ true) × (code_point_count (first_chars n text) ≤ n)
unfolding first_chars is_safe_text code_point_count
first_chars_lem zero text h = (refl, omega arith)
first_chars_lem (suc n) String.[] h = (refl, omega arith)
first_chars_lem (suc n) (String.◌∷◌ c text) h =
    let rest = first_chars_lem n text (ground arith) in
    (ground (arith, rest.0, first_chars_dash n text), omega (arith, rest.1))

sanitize_lem :
    (trim : String → String) (value : String)
    → (is_safe_text (sanitize_project_id trim value) ≡ true)
      × (code_point_count (sanitize_project_id trim value) ≤ 96)
unfolding sanitize_project_id
sanitize_lem trim value = first_chars_lem 96 _ (join_dashes_lem _ (replace_unsafe_lem (trim value)))

-- A project id that is accepted has at most 96 characters, each a letter, a digit or one of `_.-`, at
-- least one of them a letter or a digit, and no dash after a dash; and Windows can use it as a file name:
-- so it holds no path separator and is neither `.` nor `..`.
pub normalize_project_id-IsUsable :
    (trim : String → String) (value id : String)
    → normalize_project_id trim value ≡ some id
    → IsUsable id
unfolding normalize_project_id
normalize_project_id-IsUsable trim value id h =
    let text = sanitize_project_id trim value in
    elim (Bool-cases (any_char is_alphanumeric text)) [
      | inr e ↦ absurd (cc (rw e at h))
      | inl e ↦ elim (Bool-cases (is_windows_unsafe text)) [
        | inl k ↦ absurd (cc (rw (e, k) at h))
        | inr k ↦
            let same : text ≡ id = cc (rw (e, k) at h) in
            subst IsUsable same (record {
              safe = (sanitize_lem trim value).0;
              short = (sanitize_lem trim value).1;
              named = e;
              portable = k;
            })
      ]
    ]
