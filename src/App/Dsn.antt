-- ===== src/App/Dsn.antt =====
-- `to_langgraph_postgres_dsn` of gestalt/utils/runtime.py, which no other module uses. `scheme` is
-- `urlparse(url).scheme`.
use gestalt_agentic_software.Python.Exec.{Result, ok, raise_with, value_error}
use gestalt_agentic_software.App.Token.{remove_prefix}
use gestalt_agentic_software.Prelude.{String, ◌+++◌, if◌then◌else◌, starts_with, codes}

-- url.replace("postgresql+asyncpg://", "postgresql://", 1), of a URL that begins with it
abbrev psycopg_url : String → String
psycopg_url url = "postgresql://" +++ remove_prefix "postgresql+asyncpg://" url

unfoldable pub to_langgraph_postgres_dsn : (scheme : String → String) → String → Result String
unfolding remove_prefix
to_langgraph_postgres_dsn scheme url =
    if starts_with (codes url) (codes "postgresql+asyncpg://")
    then ok (psycopg_url url)
    else if starts_with (codes url) (codes "postgresql://")
    then ok url
    else if starts_with (codes (scheme url)) (codes "postgresql")
    then ok url
    else raise_with value_error ("Unsupported Postgres URL for LangGraph checkpointing: " +++ url)
