-- ===== src/Cel/Compiler/Laws.antt =====
-- What compilation accepts.
use mathlib.Core.List.{append_assoc, append-nil, cons-ne-nil}
use mathlib.Core.Path.{subst}
use tekton_kueue.Base.{
  ℕ, suc, String, true, false, List, [], ◌∷◌, ◌++◌, ok, ◌≡◌, ◌≢◌, ◌↔◌, refl, ◌∙◌, ap, sym, inl, inr,
  arith, Result-cases, eq_iff, ◌==◌, err-ne-ok, Bool-cases,
}
use tekton_kueue.Cel.Values.{CelType, string_type, map_type, list_type, Engine}
use tekton_kueue.Cel.Functions.{Validation}
use tekton_kueue.Cel.Compiler.{
  is_valid_output_type, CompiledProgram, create_cel_environment, compile_single_expression,
  compile_loop, compile_cel_programs, cel_environment_options,
}

-- map<string, any> or list<map<string, any>>, whatever the values of the maps
pub data IsRequestType : CelType → Type 0 where
  single : (v : CelType) → IsRequestType (map_type string_type v)
  several : (v : CelType) → IsRequestType (list_type (map_type string_type v))

is_valid_output_type_sound : (t : CelType) → is_valid_output_type t ≡ true → IsRequestType t
unfolding is_valid_output_type
is_valid_output_type_sound (map_type string_type v) h = single v
is_valid_output_type_sound (list_type (map_type string_type v)) h = several v
is_valid_output_type_sound _ h = cc

is_valid_output_type_complete : {t : CelType} → IsRequestType t → is_valid_output_type t ≡ true
unfolding is_valid_output_type
is_valid_output_type_complete (single v) = refl
is_valid_output_type_complete (several v) = refl

-- The test on output types accepts exactly the maps with text keys and the lists of such maps.
is_valid_output_type_iff : (t : CelType) → (is_valid_output_type t ≡ true) ↔ IsRequestType t
is_valid_output_type_iff t = (is_valid_output_type_sound t, is_valid_output_type_complete)

module _ (E : Engine) where
  -- The program is the expression, compiled under the environment, with a valid output type.
  pub record IsCompiled (env : E.Env) (expression : String) (p : CompiledProgram E) : Type 0 where
    pub not_empty : expression ≢ ""
    pub parsed : E.compile env expression ≡ ok p.ast
    pub typed : IsRequestType (E.output_type p.ast)
    pub planned : E.new_program env p.ast ≡ ok p.program
    pub kept : p.expression ≡ expression

  abbrev pub AreCompiled : E.Env → List String → List (CompiledProgram E) → Type 0
  AreCompiled env [] [] = Unit
  AreCompiled env (e ∷ es) (p ∷ ps) = IsCompiled env e p × AreCompiled env es ps
  AreCompiled env [] (p ∷ ps) = ⊥
  AreCompiled env (e ∷ es) [] = ⊥

  compile_single_expression_parts :
      (env : E.Env) (e : String) (p : CompiledProgram E)
      → compile_single_expression E env e ≡ ok p
      → (E.compile env e ≡ ok p.ast)
        × (is_valid_output_type (E.output_type p.ast) ≡ true)
        × (E.new_program env p.ast ≡ ok p.program)
        × (p.expression ≡ e)
  unfolding compile_single_expression
  compile_single_expression_parts env e p h = ground arith

  compile_single_expression_sound :
      (env : E.Env) (e : String) (p : CompiledProgram E)
      → e ≢ ""
      → compile_single_expression E env e ≡ ok p
      → IsCompiled env e p
  compile_single_expression_sound env e p ne h =
      let (parsed, typed, planned, kept) = compile_single_expression_parts env e p h in
      record {
        not_empty = ne;
        parsed = parsed;
        typed = is_valid_output_type_sound _ typed;
        planned = planned;
        kept = kept;
      }

  compile_single_expression_complete :
      (env : E.Env) (e : String) (p : CompiledProgram E)
      → IsCompiled env e p
      → compile_single_expression E env e ≡ ok p
  unfolding compile_single_expression
  compile_single_expression_complete env e p c =
      ground (arith, c.parsed, c.planned, c.kept, is_valid_output_type_complete c.typed)

  compile_loop_sound :
      (env : E.Env) (i : ℕ) (done : List (CompiledProgram E)) (es : List String)
      (ps : List (CompiledProgram E))
      → compile_loop E env i done es ≡ ok ps
      → (qs : List (CompiledProgram E)) × (ps ≡ done ++ qs) × AreCompiled env es qs
  unfolding compile_loop
  compile_loop_sound env i done [] ps h = ([], rw append-nil (cc), tt)
  compile_loop_sound env i done (e ∷ es) ps h = elim (Bool-cases (e == "")) [
    | inl empty ↦ absurd (err-ne-ok (rw (empty, compile_loop) at h))
    | inr some_text ↦ elim (Result-cases (compile_single_expression E env e)) [
      | inl (p, c) ↦
          let (qs, same, all) =
            compile_loop_sound env (suc i) (done ++ (p ∷ [])) es ps
              (rw (some_text, c, compile_loop) at h) in
          (
            p ∷ qs,
            same ∙ append_assoc done (p ∷ []) qs,
            (compile_single_expression_sound env e p (λ q. ground (arith, eq_iff e "")) c, all),
          )
      | inr (x, c) ↦ absurd (err-ne-ok (rw (some_text, c, compile_loop) at h))
    ]
  ]

  compile_loop_complete :
      (env : E.Env) (i : ℕ) (done : List (CompiledProgram E)) (es : List String)
      (ps : List (CompiledProgram E))
      → AreCompiled env es ps
      → compile_loop E env i done es ≡ ok (done ++ ps)
  unfolding compile_loop
  compile_loop_complete env i done [] [] h = rw append-nil
  compile_loop_complete env i done [] (p ∷ ps) h = absurd h
  compile_loop_complete env i done (e ∷ es) [] h = absurd h
  compile_loop_complete env i done (e ∷ es) (p ∷ ps) (c, h) =
      let some_text : (e == "") ≡ false = ground (arith, eq_iff e "", c.not_empty) in
      rw (some_text, compile_single_expression_complete env e p c, compile_loop)
        (compile_loop_complete env (suc i) (done ++ (p ∷ [])) es ps h
          ∙ ap ok (append_assoc done (p ∷ []) ps))

  compile_cel_programs_step :
      (V : Validation) (e : String) (es : List String) (ps : List (CompiledProgram E))
      → compile_cel_programs E V (e ∷ es) ≡ ok ps
      → (env : E.Env) × (E.new_env (cel_environment_options V) ≡ ok env)
        × (compile_loop E env 0 [] (e ∷ es) ≡ ok ps)
  unfolding compile_cel_programs
  compile_cel_programs_step V e es ps h =
      elim (Result-cases (E.new_env (cel_environment_options V))) [
        | inl (env, made) ↦ (env, made, rw (made, create_cel_environment) at h)
        | inr (x, failed) ↦ absurd (err-ne-ok (rw (failed, create_cel_environment) at h))
      ]

  compile_cel_programs_sound :
      (V : Validation) (e : String) (es : List String) (ps : List (CompiledProgram E))
      → compile_cel_programs E V (e ∷ es) ≡ ok ps
      → (env : E.Env) × (E.new_env (cel_environment_options V) ≡ ok env)
        × AreCompiled env (e ∷ es) ps
  compile_cel_programs_sound V e es ps h =
      let (env, made, loop) = compile_cel_programs_step V e es ps h in
      let (qs, same, all) = compile_loop_sound env 0 [] (e ∷ es) ps loop in
      (env, made, subst (AreCompiled env (e ∷ es)) (sym same) all)

  -- Compilation of a list gives programs exactly if the list is not empty, the environment is
  -- made, and each expression, not empty, has its program at its place: parsed and planned by the
  -- engine under that environment, with one of the two output types, and the text kept.
  pub compile_cel_programs_iff :
      (V : Validation) (es : List String) (ps : List (CompiledProgram E))
      → (compile_cel_programs E V es ≡ ok ps) ↔ (
          (es ≢ [])
          × ((env : E.Env) × (E.new_env (cel_environment_options V) ≡ ok env)
              × AreCompiled env es ps))
  unfolding compile_cel_programs
  compile_cel_programs_iff V [] ps = (λ h. absurd (err-ne-ok h), λ h. absurd (h.0 refl))
  compile_cel_programs_iff V (e ∷ es) ps = (
    λ h. (cons-ne-nil e es, compile_cel_programs_sound V e es ps h),
    λ (_, (env, made, all)).
        rw (made, create_cel_environment) (compile_loop_complete env 0 [] (e ∷ es) ps all),
  )
