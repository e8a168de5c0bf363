-- ===== src/Overrides/Table.antt =====
-- `CodeToValidator` of pkg/config/overrides.go.
use klaudiush.Prelude.{List, [], ◌∷◌}
use klaudiush.Prelude.Bytes.{Str, codes}

unfoldable pub code_to_validator : List (Str × Str)
code_to_validator =
    (codes "GIT001", codes "git.commit")
    ∷ (codes "GIT002", codes "git.commit")
    ∷ (codes "GIT003", codes "git.commit")
    ∷ (codes "GIT004", codes "git.commit")
    ∷ (codes "GIT005", codes "git.commit")
    ∷ (codes "GIT006", codes "git.commit")
    ∷ (codes "GIT010", codes "git.commit")
    ∷ (codes "GIT011", codes "git.commit")
    ∷ (codes "GIT012", codes "git.commit")
    ∷ (codes "GIT013", codes "git.commit")
    ∷ (codes "GIT014", codes "git.commit")
    ∷ (codes "GIT015", codes "git.commit")
    ∷ (codes "GIT016", codes "git.commit")
    ∷ (codes "GIT007", codes "git.push")
    ∷ (codes "GIT008", codes "git.push")
    ∷ (codes "GIT022", codes "git.push")
    ∷ (codes "GIT025", codes "git.push")
    ∷ (codes "GIT009", codes "git.add")
    ∷ (codes "GIT019", codes "git.add")
    ∷ (codes "GIT020", codes "git.branch")
    ∷ (codes "GIT021", codes "git.no_verify")
    ∷ (codes "GIT017", codes "git.merge")
    ∷ (codes "GIT018", codes "git.merge")
    ∷ (codes "GIT023", codes "git.pr")
    ∷ (codes "GIT024", codes "git.fetch")
    ∷ (codes "FILE001", codes "file.shellscript")
    ∷ (codes "FILE002", codes "file.terraform")
    ∷ (codes "FILE003", codes "file.terraform")
    ∷ (codes "FILE004", codes "file.workflow")
    ∷ (codes "FILE005", codes "file.markdown")
    ∷ (codes "FILE006", codes "file.gofumpt")
    ∷ (codes "FILE007", codes "file.python")
    ∷ (codes "FILE008", codes "file.javascript")
    ∷ (codes "FILE009", codes "file.rust")
    ∷ (codes "FILE010", codes "file.linter_ignore")
    ∷ (codes "SEC001", codes "secrets")
    ∷ (codes "SEC002", codes "secrets")
    ∷ (codes "SEC003", codes "secrets")
    ∷ (codes "SEC004", codes "secrets")
    ∷ (codes "SEC005", codes "secrets")
    ∷ (codes "SHELL001", codes "shell.backtick")
    ∷ (codes "GH001", codes "github.issue")
    ∷ (codes "PLUG001", codes "plugins")
    ∷ (codes "PLUG002", codes "plugins")
    ∷ (codes "PLUG003", codes "plugins")
    ∷ (codes "PLUG004", codes "plugins")
    ∷ (codes "PLUG005", codes "plugins")
    ∷ []
