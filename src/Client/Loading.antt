-- ===== src/Client/Loading.antt =====
-- rkx_jni.cpp: JNI_OnLoad and JNI_OnUnload. What the Java virtual machine answers is an argument.
use re_kernel_x.Base.{
  ℕ, ◌≡◌, refl, ◌⊎◌, inl, inr, Bool, true, false, ◌&&◌, not, List, ◌∷◌, Option, none, some, is_some,
  if◌then◌else◌, ◌==◌, arith, Bool-cases, ℤ, pos, minus_one,
}
use re_kernel_x.Client.Connection.{remove_ref}

-- g_cbClass, a global reference, the three method ids, and the global references to classes that there
-- are.
pub record Library : Type 0 where
  pub cb_class : Option ℕ
  pub mid_binder : Option ℕ
  pub mid_signal : Option ℕ
  pub mid_network : Option ℕ
  pub class_refs : List ℕ

-- GetEnv, FindClass, NewGlobalRef and GetMethodID
pub record Machine : Type 0 where
  pub has_env : Bool
  pub has_class : Bool
  pub new_ref : ℕ
  pub binder_id : Option ℕ
  pub signal_id : Option ℕ
  pub network_id : Option ℕ

-- JNI_ERR and JNI_VERSION_1_6
abbrev pub jni_err : ℤ
jni_err = minus_one

abbrev pub jni_version : ℤ
jni_version = pos 65542

abbrev pub with_class : Library → Machine → Library
with_class l vm = record l {
  cb_class = some vm.new_ref;
  mid_binder = vm.binder_id;
  mid_signal = vm.signal_id;
  mid_network = vm.network_id;
  class_refs = vm.new_ref ∷ l.class_refs;
}

abbrev pub has_methods : Machine → Bool
has_methods vm = is_some vm.binder_id && (is_some vm.signal_id && is_some vm.network_id)

unfoldable pub on_load : Library → Machine → ℤ × Library
on_load l vm =
    if not vm.has_env
    then (jni_err, l)
    else if not vm.has_class
    then (jni_err, l)
    else if not (has_methods vm)
    then (jni_err, with_class l vm)
    else (jni_version, with_class l vm)

abbrev pub drop_class : Library → Option ℕ → Library
drop_class l none = l
drop_class l (some ref) = record l { cb_class = none; class_refs = remove_ref ref l.class_refs }

unfoldable pub on_unload : Library → Bool → Library
on_unload l has_env = if has_env then drop_class l l.cb_class else l

-- JNI_OnLoad answers the version only if everything was found, and then every method is known and the
-- class is referred to; JNI_OnUnload gives the reference back, to whatever JNI_OnLoad answered.
pub load_outcome :
    (l : Library) (vm : Machine)
    → l.cb_class ≡ none
    → let r = on_load l vm in
      ((on_unload r.1 true).class_refs ≡ l.class_refs)
      × (((r.0 ≡ jni_err) × ((vm.has_env && (vm.has_class && has_methods vm)) ≡ false))
          ⊎ ((r.0 ≡ jni_version)
              × (r.1 ≡ with_class l vm)
              × ((vm.has_env && (vm.has_class && has_methods vm)) ≡ true)))
unfolding on_load on_unload
load_outcome l vm fresh = elim (Bool-cases vm.has_env) [
  | inr no_env ↦ (rw (no_env, fresh) refl, inl (rw no_env refl, rw no_env refl))
  | inl env ↦ elim (Bool-cases vm.has_class) [
    | inr no_class ↦
        (rw (env, no_class, fresh) refl, inl (rw (env, no_class) refl, rw (env, no_class) refl))
    | inl found ↦
        let same : vm.new_ref == vm.new_ref ≡ true = ground arith in
        elim (Bool-cases (has_methods vm)) [
          | inr missing ↦ (
            rw (env, found, missing, same) refl,
            inl (rw (env, found, missing) refl, rw (env, found, missing) refl),
          )
          | inl methods ↦ (
            rw (env, found, methods, same) refl,
            inr (
              rw (env, found, methods) refl,
              rw (env, found, methods) refl,
              rw (env, found, methods) refl,
            ),
          )
        ]
  ]
]
