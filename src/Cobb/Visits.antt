-- ===== src/Cobb/Visits.antt =====
-- The pages of the web interface, asked for, and the chart of the scores, at concrete inputs.
use testbench.Common.{ℕ, refl, Option, none, some, List, [], ◌∷◌, ◌&&◌, All, String}
use testbench.Cobb.Months.{DatePipe}
use testbench.Cobb.Insight.{ChartColors, DashboardChart}
use testbench.Cobb.Scores.{Scores}
use testbench.Cobb.Resolvers.{Named}
use testbench.Cobb.Pages.{Answers, Router, all_true, forest_chains, app_routes}
use testbench.Cobb.Opened.{IsProtected, pages-IsProtected}

abbrev router : Router
router = record {
  activates = λ guards resolvers. all_true guards && all_true resolvers;
  activates_lem = λ guards resolvers. refl;
}

abbrev shop : Named
shop = record { id = some "a1"; name = some "shop" }

abbrev answers : Answers
answers = record { application = some shop; context = none; artefact = none; measurements = none }

abbrev params : String → Option String
params name = some "a1"

pages-IsProtected_example :
    All (IsProtected router "https://api" params answers "/") (forest_chains [] app_routes)
pages-IsProtected_example = pages-IsProtected router "https://api" params answers "/"

abbrev chart_colors : ChartColors
chart_colors = record {
  chart_blue = "b";
  chart_green = "g";
  chart_orange = "o";
  chart_purple = "v";
  chart_red = "r";
  tertiary = "t";
  primary16 = "d";
}

abbrev scores : List (DashboardChart ℕ)
scores =
    record { application_name = "shop"; monthly_scores = ("2025-01", 3) ∷ ("2025-02", 4) ∷ [] }
    ∷ record { application_name = "news"; monthly_scores = ("2025-01", 5) ∷ ("2025-02", 1) ∷ [] }
    ∷ []

abbrev no_scores : Scores ℕ
no_scores = record {
  chart = record { application_list = []; full_app_data = []; legend_items = []; datasets = [] };
  chosen = [];
  month_labels = [];
  month_keys = none;
  max_score = 0;
}

abbrev month_names : DatePipe
month_names = record { transform = λ year month format. some "May" }
