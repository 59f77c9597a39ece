-- ===== src/Generate/Grows.antt =====
-- The result of `GenerateRules` (java/gazelle/generate.go) grows: what each way to make a rule does to the rules and
-- to the inputs of their resolution.
use rules_jvm.Prelude.Sort.{sort}
use rules_jvm.Prelude.{
  text_less, ◌≡◌, refl, sym, ap, ◌∙◌, Bool, true, false, Option, none, some, List, [], ◌∷◌, ◌++◌,
  append-nil, append_assoc, Text, text_dec, lookup, length, length-append, arith, if◌then◌else◌,
  ◌>>=◌, ◌&&◌,
}
use rules_jvm.Names.{PackageName, ClassName}
use rules_jvm.Labels.{LabelLib}
use rules_jvm.Config.{Config}
use rules_jvm.ExportIndex.{ResolveInput}
use rules_jvm.Generate.Files.{JavaFile, proto_java_rule_names}
use rules_jvm.Generate.Libraries.{
  File, NewRule, Generation, LibraryArgs, generate_java_library, collect_runtime_deps,
  record_library, input_of,
}
use rules_jvm.Generate.TestRules.{
  generate_java_binary, generate_java_test, generate_java_test_suite,
}
use rules_jvm.Generate.Resources.{emit, no_input, generate_resources}
use rules_jvm.Generate.Protos.{
  ProtoPackage, generate_proto_library, generate_proto_rules, generate_proto_libraries,
  proto_packages, OtherRule, proto_rule, grpc_rule, proto_java_library, proto_classes,
  java_package_of, cache_proto_classes, local_label, proto_rule_names, empty_proto_rules,
}

module _ {Expr : Type 0} where
  -- New rules behind the old ones, and as many new inputs behind the old ones.
  pub record Grows (g h : Generation Expr) : Type 0 where
    pub rules : List (NewRule Expr)
    pub inputs : List ResolveInput
    pub more_rules : h.gen ≡ g.gen ++ rules
    pub more_inputs : h.imports ≡ g.imports ++ inputs
    pub as_many : length rules ≡ length inputs

  pub Grows-same : (g h : Generation Expr) → h.gen ≡ g.gen → h.imports ≡ g.imports → Grows g h
  Grows-same g h r i = record {
    rules = [];
    inputs = [];
    more_rules = r ∙ sym (append-nil g.gen);
    more_inputs = i ∙ sym (append-nil g.imports);
    as_many = refl;
  }

  Grows-one :
      (g h : Generation Expr) (r : NewRule Expr) (i : ResolveInput)
      → h.gen ≡ g.gen ++ r ∷ []
      → h.imports ≡ g.imports ++ i ∷ []
      → Grows g h
  Grows-one g h r i p q = record {
    rules = r ∷ [];
    inputs = i ∷ [];
    more_rules = p;
    more_inputs = q;
    as_many = refl;
  }

  pub Grows-trans : (g h k : Generation Expr) → Grows g h → Grows h k → Grows g k
  Grows-trans g h k a b = record {
    rules = a.rules ++ b.rules;
    inputs = a.inputs ++ b.inputs;
    more_rules =
        b.more_rules ∙ ap (λ z. z ++ b.rules) a.more_rules ∙ append_assoc g.gen a.rules b.rules;
    more_inputs =
        b.more_inputs
        ∙ ap (λ z. z ++ b.inputs) a.more_inputs
        ∙ append_assoc g.imports a.inputs b.inputs;
    as_many = omega (
      arith,
      a.as_many,
      b.as_many,
      length-append a.rules b.rules,
      length-append a.inputs b.inputs,
    );
  }

  -- What a step that may end the run leaves.
  unfoldable pub Ends : Generation Expr → Option (Generation Expr) → Type 0
  Ends g none = Unit
  Ends g (some h) = Grows g h

  pub Ends-then :
      (g : Generation Expr) (o : Option (Generation Expr))
      (k : Generation Expr → Option (Generation Expr))
      → Ends g o
      → ((h : Generation Expr) → Ends h (k h))
      → Ends g (elim o [ none ↦ none | some h ↦ k h ])
  unfolding Ends
  Ends-then g none k a f = tt
  Ends-then g (some h) k a f = go (k h) (f h)
    where
      go : (o : Option (Generation Expr)) → Ends h o → Ends g o
      go none b = tt
      go (some l) b = Grows-trans g h l a b

  Ends-bind :
      {B : Type 0} (g : Generation Expr) (o : Option B) (k : B → Option (Generation Expr))
      → ((b : B) → Ends g (k b))
      → Ends g (o >>= k)
  unfolding Ends
  Ends-bind g none k f = tt
  Ends-bind g (some b) k f = f b

  pub Ends-elim :
      {B : Type 0} (g : Generation Expr) (o : Option B) (k : B → Option (Generation Expr))
      → ((b : B) → Ends g (k b))
      → Ends g (elim o [ none ↦ none | some b ↦ k b ])
  unfolding Ends
  Ends-elim g none k f = tt
  Ends-elim g (some b) k f = f b

  pub Ends-then_bind :
      (g : Generation Expr) (o : Option (Generation Expr))
      (k : Generation Expr → Option (Generation Expr))
      → Ends g o
      → ((h : Generation Expr) → Ends h (k h))
      → Ends g (o >>= k)
  Ends-then_bind g none k a f = Ends-then g none k a f
  Ends-then_bind g (some h) k a f = Ends-then g (some h) k a f

  -- A step after one that surely grows.
  pub Ends-after :
      (g h : Generation Expr) (o : Option (Generation Expr)) → Grows g h → Ends h o → Ends g o
  unfolding Ends
  Ends-after g h none a b = tt
  Ends-after g h (some l) a b = Grows-trans g h l a b

  pub Grows-emit :
      (r : NewRule Expr) (i : ResolveInput) (g : Generation Expr) → Grows g (emit r i g)
  unfolding emit
  Grows-emit r i g = Grows-one g _ r i refl refl

  pub Grows-generate_resources :
      (kind : Text) (b : Bool) (fs : List Text) (g : Generation Expr)
      → Grows g (generate_resources kind b fs g)
  unfolding generate_resources
  Grows-generate_resources kind b [] g = Grows-same g _ refl refl
  Grows-generate_resources kind true (f ∷ fs) g = Grows-emit _ no_input g
  Grows-generate_resources kind false (f ∷ fs) g =
      Grows-trans g _ _ (Grows-emit _ no_input g) (Grows-emit _ no_input _)

  Grows-option :
      {A : Type 0} (g : Generation Expr) (o : Option A) (k : A → Generation Expr)
      → ((a : A) → Grows g (k a))
      → Grows g (elim o [ none ↦ g | some a ↦ k a ])
  Grows-option g none k f = Grows-same g g refl refl
  Grows-option g (some a) k f = f a

  pub Ends-if :
      (b : Bool) (g : Generation Expr) (o p : Option (Generation Expr))
      → Ends g o
      → Ends g p
      → Ends g (elim b [ true ↦ o | false ↦ p ])
  Ends-if true g o p h k = h
  Ends-if false g o p h k = k

  pub Ends-cons :
      {A : Type 0} (g : Generation Expr) (xs : List A) (o p : Option (Generation Expr))
      → Ends g o
      → Ends g p
      → Ends g (elim xs [ [] ↦ o | _ ∷ _ ↦ p ])
  Ends-cons g [] o p h k = h
  Ends-cons g (x ∷ xs) o p h k = k

  pub Grows-cons :
      {A : Type 0} (g : Generation Expr) (xs : List A) (h k : Generation Expr)
      → Grows g h
      → Grows g k
      → Grows g (elim xs [ [] ↦ h | _ ∷ _ ↦ k ])
  Grows-cons g [] h k a b = a
  Grows-cons g (x ∷ xs) h k a b = b

  pub Ends-self : (g : Generation Expr) → Ends g (some g)
  unfolding Ends
  Ends-self g = Grows-same g g refl refl

  module _ (lib : LabelLib) where
    pub Ends-generate_java_library :
        (b : Bool) (file : Option File) (a : LibraryArgs) (g : Generation Expr)
        → Ends g (generate_java_library lib b file a g)
    unfolding generate_java_library Ends
    Ends-generate_java_library b file a g =
        Ends-bind g (collect_runtime_deps lib a.name file) _ (λ ds.
          Ends-bind g (record_library lib b file a g.java_export_index) _
            (λ jei. Grows-one g _ _ _ refl refl))

    pub Ends-generate_java_binary :
        (file : Option File) (m : ClassName) (n : Text) (b : Bool) (g : Generation Expr)
        → Ends g (generate_java_binary lib file m n b g)
    unfolding generate_java_binary Ends
    Ends-generate_java_binary file m n b g =
        Ends-bind g (collect_runtime_deps lib m.bare_outer_class_name file) _
          (λ ds. Grows-one g _ _ _ refl refl)

    pub Ends-generate_java_test :
        (file : Option File) (rel repository : Text) (f : JavaFile) (w : Bool)
        (imports : List PackageName) (classes processors : List ClassName) (helper : Option Text)
        (wrapper : Text) (attributes : List (Text × Expr)) (g : Generation Expr)
        → Ends g (
            generate_java_test lib file rel repository f w imports classes processors helper wrapper
              attributes g)
    unfolding generate_java_test Ends
    Ends-generate_java_test file rel repository f w imports classes processors helper wrapper
          attributes g =
        Ends-bind g (collect_runtime_deps lib _ file) _ (λ ds. Grows-one g _ _ _ refl refl)

    pub Ends-generate_java_test_suite :
        (file : Option File) (name : Text) (sources : List Text) (packages : List PackageName)
        (repository : Text) (imports : List PackageName) (classes processors : List ClassName)
        (suffixes : Option (List Text)) (h : Bool) (g : Generation Expr)
        → Ends g (
            generate_java_test_suite lib file name sources packages repository imports classes
              processors suffixes h g)
    unfolding generate_java_test_suite Ends
    Ends-generate_java_test_suite file name sources packages repository imports classes processors
          suffixes h g =
        Ends-bind g (collect_runtime_deps lib name file) _ (λ ds. Grows-one g _ _ _ refl refl)

    Grows-generate_proto_library :
        (cfg : Config) (rel n : Text) (p : ProtoPackage) (g : Generation Expr)
        → Grows g (generate_proto_library lib cfg rel n p g)
    unfolding generate_proto_library
    Grows-generate_proto_library cfg rel n p g = go (p.has_services && cfg.generate_proto_services)
      where
        names : Text × Text × Text
        names = proto_java_rule_names n

        g1 : Generation Expr
        g1 = emit (proto_rule lib n names.0) no_input g

        cached : (h : Generation Expr) → Generation Expr
        cached h = record h {
          class_export_cache =
              cache_proto_classes lib rel names.2 (proto_classes (java_package_of p) p.files)
                h.class_export_cache;
        }

        last :
            (r : NewRule Expr) (i : ResolveInput) (h : Generation Expr)
            → Grows g h
            → Grows g (emit r i (cached h))
        last r i h a =
            Grows-trans g h _ a
              (Grows-trans h (cached h) _ (Grows-same h _ refl refl) (Grows-emit r i (cached h)))

        go :
            (b : Bool)
            → Grows g (
                emit
                  (proto_java_library lib
                    (java_package_of p)
                    (proto_classes (java_package_of p) p.files)
                    (if b
                      then local_label names.1 ∷ local_label names.0 ∷ []
                      else local_label names.0 ∷ [])
                    names.2)
                  (input_of (java_package_of p ∷ []) [] [] [])
                  (cached (if b then emit (grpc_rule lib n names.0 names.1) no_input g1 else g1)))
        go true =
            last _ _ _ (Grows-trans g g1 _ (Grows-emit _ no_input g) (Grows-emit _ no_input g1))
        go false = last _ _ _ (Grows-emit _ no_input g)

    Grows-generate_proto_rules :
        (cfg : Config) (rel : Text) (ps : List (Text × ProtoPackage)) (ns : List Text)
        (g : Generation Expr)
        → Grows g (generate_proto_rules lib cfg rel ps ns g)
    unfolding generate_proto_rules
    Grows-generate_proto_rules cfg rel ps [] g = Grows-same g g refl refl
    Grows-generate_proto_rules cfg rel ps (n ∷ ns) g =
        Grows-trans g _ _
          (Grows-option g (lookup text_dec n ps) _
            (λ p. Grows-generate_proto_library cfg rel n p g))
          (Grows-generate_proto_rules cfg rel ps ns _)

    pub Ends-generate_proto_libraries :
        (cfg : Config) (rel : Text) (others deleted : List OtherRule) (g : Generation Expr)
        → Ends g (generate_proto_libraries lib cfg rel others deleted g)
    unfolding generate_proto_libraries Ends
    Ends-generate_proto_libraries cfg rel others deleted g =
        Ends-elim g (proto_packages others []) _ (λ ps.
          Grows-trans g _ _ (Grows-same g _ refl refl) (
            Grows-generate_proto_rules cfg rel ps (sort text_less (proto_rule_names others))
              (record g { empty = g.empty ++ empty_proto_rules deleted })))
