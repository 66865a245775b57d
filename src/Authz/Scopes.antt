-- ===== src/Authz/Scopes.antt =====
-- internal/authz/scopes.go.
use kub.Base.{ℕ, String, ◌=ˢ◌, if◌then◌else◌}

abbrev pub scope_own : String
scope_own = "own"

abbrev pub scope_assigned : String
scope_assigned = "assigned"

abbrev pub scope_department : String
scope_department = "department"

abbrev pub scope_branch : String
scope_branch = "branch"

abbrev pub scope_related_departments : String
scope_related_departments = "related_departments"

abbrev pub scope_all : String
scope_all = "all"

unfoldable pub scope_rank : String → ℕ
scope_rank scope =
    if scope =ˢ scope_own
    then 10
    else if scope =ˢ scope_assigned
    then 20
    else if scope =ˢ scope_department
    then 30
    else if scope =ˢ scope_branch
    then 40
    else if scope =ˢ scope_related_departments
    then 50
    else if scope =ˢ scope_all
    then 60
    else 0
