-- ===== src/PlanCompiler/Toolchain.antt =====
-- Which host tools `HostTools` of capabilities.go accepts.
use sync_bridge.Text.{GoText}
use sync_bridge.PlanCompiler.Types.{HostToolPaths, CapabilityReport, bad_tool_path}
use sync_bridge.PlanCompiler.Capabilities.{
  host_tools, details, tools_checked, tools_of, by_code, tool_names, is_clean_path,
  available_capability, detail, is_profile, tools_from,
}
use sync_bridge.Base.{
  [], ◌∷◌, refuse_if, List, lookup, String, ◌≡◌, ok, elem, true, refl, ap, if◌then◌else◌, failure,
  elem-head, string_keyed, ◌∙◌, elem-tail, elem-nil, Bool-cases, inr, inl, same-cases, subst, sym,
  elem-tail_of_ne,
}

-- Names that pass the check are those of clean paths.
pub tools_checked-clean :
    (go : GoText) (details : List (String × String)) (names : List String) (name : String)
    → tools_checked go details names ≡ ok tt
    → elem name names ≡ true
    → is_clean_path go (detail details name) ≡ true
unfolding tools_checked
tools_checked-clean go details [] name h e = absurd (elem-nil name e)
tools_checked-clean go details (first ∷ more) name h e =
    elim (Bool-cases (is_clean_path go (detail details first))) [
      | inr q ↦ absurd (cc (h, q))
      | inl q ↦ elim (same-cases first name) [
        | inl s ↦ subst (λ n. is_clean_path go (detail details n) ≡ true) s.1 q
        | inr s ↦
            tools_checked-clean go details more name
              (ap (λ b. if b then tools_checked go details more else failure (bad_tool_path first))
                  (sym q)
                ∙ h)
              (elem-tail_of_ne name first more s.0 e)
      ]
    ]

tools_checked-ok :
    (go : GoText) (details : List (String × String)) (names : List String)
    → ((name : String) → elem name names ≡ true → is_clean_path go (detail details name) ≡ true)
    → tools_checked go details names ≡ ok tt
unfolding tools_checked
tools_checked-ok go details [] clean = refl
tools_checked-ok go details (first ∷ more) clean =
    ap (λ b. if b then tools_checked go details more else failure (bad_tool_path first))
      (clean first (elem-head first more))
    ∙ tools_checked-ok go details more (λ name e. clean name (elem-tail name first more e))

tools_of-details : (t : HostToolPaths) → tools_of (details t) ≡ t
unfolding tools_of details lookup
tools_of-details t = refl

profile-details : (t : HostToolPaths) → detail (details t) "profile" ≡ t.profile
unfolding details lookup
profile-details t = refl

-- A report whose entry for the toolchain is the one made of tools with a known profile, each with an
-- absolute and clean path, gives back these tools.
pub host_tools-details :
    (go : GoText) (report : CapabilityReport) (t : HostToolPaths)
    → by_code report "host_toolchain" ≡ available_capability "host_toolchain" (details t)
    → is_profile t.profile ≡ true
    → ((name : String)
        → elem name tool_names ≡ true
        → is_clean_path go (detail (details t) name) ≡ true)
    → host_tools go report ≡ ok t
unfolding host_tools tools_from refuse_if
host_tools-details go report t entry known clean =
    ap (tools_from go) entry
    ∙ cc (
      tools_checked-ok go (details t) tool_names clean,
      known,
      tools_of-details t,
      profile-details t,
    )
