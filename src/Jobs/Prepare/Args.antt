-- ===== src/Jobs/Prepare/Args.antt =====
-- The arguments of a job (crates/service/src/logic/job/schedule.rs, `get_job_actual_args`).
use jiascheduler.Base.{
  ◌≡◌, ◌∙◌, ap, sym, refl, Bool, String, ◌==◌, true, false, Option, none, some, List, [], ◌∷◌, ok,
  HashMap, get, insert, get-insert, if◌then◌else◌,
}
use jiascheduler.Jobs.Prepare.{
  JobFormalArg, Sources, formal_values, extend, extend_given, get_job_actual_args,
}

abbrev pub or_later : Option String → Option String → Option String
or_later none earlier = earlier
or_later (some v) earlier = some v

-- The last value that the formal arguments, or the given ones, have for a name.
abbrev pub last_formal : String → List JobFormalArg → Option String
last_formal name [] = none
last_formal name (arg ∷ args) =
    or_later (last_formal name args) (if arg.name == name then some arg.val else none)

abbrev pub last_given : String → HashMap String → Option String
last_given name [] = none
last_given name ((k, v) ∷ entries) =
    or_later (last_given name entries) (if k == name then some v else none)

abbrev pub given_value : String → Option (HashMap String) → Option String
given_value name none = none
given_value name (some entries) = last_given name entries

or_later-if :
    (later : Option String) (b : Bool) (v : String) (old : Option String)
    → or_later later (if b then some v else old)
      ≡ or_later (or_later later (if b then some v else none)) old
or_later-if none true v old = refl
or_later-if none false v old = refl
or_later-if (some w) b v old = refl

formal_values-get :
    (name : String) (args : List JobFormalArg) (ret : HashMap String)
    → get name (formal_values args ret) ≡ or_later (last_formal name args) (get name ret)
formal_values-get name [] ret = refl
formal_values-get name (arg ∷ args) ret =
    formal_values-get name args (insert arg.name arg.val ret)
    ∙ ap (or_later (last_formal name args)) (get-insert arg.name name arg.val ret)
    ∙ or_later-if (last_formal name args) (arg.name == name) arg.val (get name ret)

extend-get :
    (name : String) (entries ret : HashMap String)
    → get name (extend ret entries) ≡ or_later (last_given name entries) (get name ret)
extend-get name [] ret = refl
extend-get name ((k, v) ∷ entries) ret =
    extend-get name entries (insert k v ret)
    ∙ ap (or_later (last_given name entries)) (get-insert k name v ret)
    ∙ or_later-if (last_given name entries) (k == name) v (get name ret)

or_later-none : (o : Option String) → or_later o none ≡ o
or_later-none none = refl
or_later-none (some v) = refl

formal_get :
    (name : String) (args : List JobFormalArg)
    → get name (formal_values args []) ≡ last_formal name args
unfolding get
formal_get name args = formal_values-get name args [] ∙ or_later-none (last_formal name args)

extend_given-get :
    (name : String) (given : Option (HashMap String)) (ret : HashMap String)
    → get name (extend_given ret given) ≡ or_later (given_value name given) (get name ret)
extend_given-get name none ret = refl
extend_given-get name (some entries) ret = extend-get name entries ret

-- When the arguments of a job are answered, a name has the last value that is given for it, and
-- else the last that the formal arguments of the job have for it.
pub get_job_actual_args-get :
    (sources : Sources) (val : String) (given : Option (HashMap String)) (args : List JobFormalArg)
    (ret : HashMap String) (name : String)
    → sources.read_args val ≡ some (ok args)
    → get_job_actual_args sources (some val) given ≡ ok (some ret)
    → get name ret ≡ or_later (given_value name given) (last_formal name args)
unfolding get_job_actual_args
get_job_actual_args-get sources val given args ret name read h =
    let e : extend_given (formal_values args []) given ≡ ret =
      cc (rw (read, get_job_actual_args) at h) in
    ap (get name) (sym e)
    ∙ extend_given-get name given (formal_values args [])
    ∙ ap (or_later (given_value name given)) (formal_get name args)
